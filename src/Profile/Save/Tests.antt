-- ===== src/Profile/Save/Tests.antt =====
-- Saves of services/profile/internal/save.go over a JSON whose texts are the trees themselves.
use pokecatch.Prelude.{ℕ, String, ◌≡◌, refl, ap, false, Option, none, some}
use pokecatch.Prelude.Int.{ℤ, pos}
use pokecatch.Prelude.Dict.{empty}
use pokecatch.Profile.Save.{
  SaveBlob, Envelope, Json, IsJson, current_save_version, bad_blob, or_error, encode, decode,
  migrate_save,
}
use pokecatch.Profile.Save.RoundTrip.{decode-encode, decode_ok, IsSealed, forward}

abbrev Blob : Type 0
Blob = SaveBlob ℕ String

data Tree : Type 0 where
  leaf : Blob → Tree
  node : String → Tree → Tree

abbrev read_blob : Tree → Option Blob
read_blob (leaf b) = some b
read_blob (node s t) = none

abbrev read_version : Tree → Option ℤ
read_version (leaf b) = some b.version
read_version (node s t) = none

abbrev read_envelope : Tree → Option (Envelope Tree)
read_envelope (leaf b) = none
read_envelope (node s t) = some (record { checksum = s; payload = t })

abbrev json : Json ℕ String Tree
json = record {
  marshal_blob = λ b. some (leaf b);
  unmarshal_blob = read_blob;
  peek_version = read_version;
  marshal_envelope = λ e. some (node e.checksum e.payload);
  unmarshal_envelope = read_envelope;
  is_empty = λ t. false;
  sha256_hex = λ v t. "5a";
}

version_alone : (t : Tree) (b : Blob) → read_blob t ≡ some b → read_version t ≡ some b.version
version_alone (leaf c) b h = cc h
version_alone (node s t) b h = absurd (cc h)

json-IsJson : IsJson json
json-IsJson = record {
  version_written = λ b t h. ap read_version (leaf_back b t h);
  blob_filled = λ b t h. refl;
  version_alone = version_alone;
  envelope_back = λ b s t raw h k. ap read_envelope (node_back s t raw k);
}
  where
    leaf_back : (b : Blob) (t : Tree) → some (leaf b) ≡ some t → t ≡ leaf b
    leaf_back b t h = cc h

    node_back : (s : String) (t raw : Tree) → some (node s t) ≡ some raw → raw ≡ node s t
    node_back s t raw h = cc h

abbrev new_game : Blob
new_game = record {
  version = pos 0;
  account_id = "ada";
  region = "harbor";
  pos_x = 3;
  pos_y = 4;
  story_flags = none;
  settings = some empty;
  playtime_s = pos 60;
}

-- The text that Encode writes of it
abbrev new_raw : Tree
new_raw = node "5a" (leaf (record new_game { version = pos 3 }))

decode-encode_example :
    (payload : Tree) × (json.marshal_blob (record new_game { version = current_save_version })
      ≡ some payload)
    × (decode json new_raw ≡ or_error json bad_blob (json.unmarshal_blob payload))
unfolding encode
decode-encode_example = decode-encode json new_game new_raw json-IsJson refl

-- A save of the first version.
abbrev old_game : Blob
old_game = record new_game { version = pos 1; settings = none }

abbrev brought_forward : Blob
brought_forward = record new_game {
  version = pos 3;
  story_flags = some empty;
  settings = some empty;
}

decode_ok_example :
    (old : Blob) × IsSealed json (node "5a" (leaf old_game)) old
    × (brought_forward ≡ forward json old)
unfolding decode migrate_save
decode_ok_example = decode_ok json (node "5a" (leaf old_game)) brought_forward json-IsJson refl
