-- ===== src/Engine/Battle/Digest.antt =====
-- services/battle/internal/engine/battle.go: Digest, the FNV-1a hash of 64 bits of the words that
-- make up the state, each written as eight bytes from the lowest on.
use Prim.Native.Nat.{bit_xor}
use pokecatch.Prelude.{ℕ, zero, suc, ◌-◌, ◌*◌, ◌/◌, ◌%◌, List, [], ◌∷◌}
use pokecatch.Prelude.Int.{ℤ, pos, negsuc}
use pokecatch.Types.{status_code}
use pokecatch.Engine.Rng.{u64_mod}
use pokecatch.Engine.Battler.{Battler}
use pokecatch.Engine.Battle.{Side, Battle}

abbrev fnv_offset : ℕ
fnv_offset = 14695981039346656037

abbrev fnv_prime : ℕ
fnv_prime = 1099511628211

abbrev write_byte : ℕ → ℕ → ℕ
write_byte h b = bit_xor h b * fnv_prime % u64_mod

-- The lowest bytes of a word.
write_bytes : ℕ → ℕ → ℕ → ℕ
write_bytes zero v h = h
write_bytes (suc n) v h = write_bytes n (v / 256) (write_byte h (v % 256))

abbrev put : ℕ → ℕ → ℕ
put v h = write_bytes 8 v h

-- uint64(n) for an int
abbrev pub to_u64 : ℤ → ℕ
to_u64 (pos n) = n % u64_mod
to_u64 (negsuc n) = u64_mod - 1 - n % u64_mod

put_party : List Battler → ℕ → ℕ
unfolding write_bytes
put_party [] h = h
put_party (b ∷ bs) h = put_party bs (put (status_code b.status) (put (to_u64 b.cur_hp) h))

put_side : Side → ℕ → ℕ
unfolding write_bytes put_party
put_side s h = put_party s.party (put s.active h)

pub digest : Battle → ℕ
unfolding write_bytes put_side
digest bt = put_side bt.side_b (put_side bt.side_a (put bt.turn (put bt.rng fnv_offset)))
