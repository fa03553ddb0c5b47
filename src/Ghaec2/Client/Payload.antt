-- ===== src/Ghaec2/Client/Payload.antt =====
-- What the client sends, read the way it reads what it receives.
use actionsspot.Prelude.{
  ℤ, pos, ◌<◌, ◌≤◌, ◌^◌, pos_part, neg_part, String, ◌≡◌, refl, true, false, some, List, [], ◌∷◌,
  map, arith,
}
use actionsspot.Json.{at_key, integer, as_int, traverse}
use actionsspot.Ghaec2.Types.{Label, decode_label, decode_scale_set, items}
use actionsspot.Ghaec2.Client.ScaleSets.{label_body, scale_set_payload}

-- The label of a new scale set.
abbrev pub user_label : String → Label
user_label name = record { id = pos 0; name = name; type = "User" }

labels_read :
    (labels : List String)
    → traverse decode_label (items (map label_body labels)) ≡ some (map user_label labels)
unfolding at_key
labels_read [] = refl
labels_read (label ∷ labels) = rw (labels_read labels) refl

-- For a group that an int64 holds, the payload that asks for a new scale set, decoded as an answer of
-- the service, is the scale set with the name, the group and the labels asked for, whose runners are
-- ephemeral and elastic, and which has no id.
pub decode-scale_set_payload :
    (name : String) (labels : List String) (group : ℤ)
    → pos_part group < 2 ^ 63
    → neg_part group ≤ 2 ^ 63
    → decode_scale_set (scale_set_payload name labels group)
      ≡ some (record {
        id = pos 0;
        name = name;
        runner_group_id = group;
        labels = map user_label labels;
        runner_setting = record { ephemeral = true; is_elastic = true; disable_update = false };
      })
unfolding decode_scale_set at_key
decode-scale_set_payload name labels group h k =
    let fits : as_int (integer group) ≡ some group = ground arith in
    rw (fits, labels_read labels) refl
