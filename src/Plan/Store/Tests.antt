-- ===== src/Plan/Store/Tests.antt =====
-- A plan that is saved, and the theorems at it.
use mup.Base.{◌≡◌, sym, refl, true, false, [], ◌++◌, none, some}
use mup.Base.Text.{Text, codes, text_eq}
use mup.Base.Dict.{lookup, insert, delete}
use mup.Base.Results.{ok}
use mup.Plan.{Plan}
use mup.Plan.Store.{
  Codec, Io, with_identity, save_plan, store_plan, encode_plan, write_plan, rename_plan,
  write_checksum, verify_plan, same_checksum, delete_plan, get_plans_dir, get_store_path,
}
use mup.Plan.Store.Kept.{Saves, Elsewhere, save_plan-Saves}
use mup.Plan.Store.Deleted.{Deletes, delete_plan-Deletes}

abbrev new_plan : Plan
new_plan = record {
  plan_id = [];
  operation = codes "deploy";
  cluster_name = codes "c";
  created_at = 0;
  version = codes "7.0.1";
  variant = [];
  topology_file = [];
  validation = record { valid = true; errors = []; warnings = []; checks = [] };
  phases = [];
  dry_run = false;
  environment = [];
}

abbrev small_codec : Codec
small_codec = record {
  encode = λ p. ok p.plan_id;
  decode = λ t. ok (record new_plan { plan_id = t; created_at = 5 });
  checksum = λ t. codes "sum" ++ t;
}

abbrev no_fault : Io
no_fault = record {
  mkdir = none;
  write = none;
  rename = none;
  write_checksum = none;
  remove = none;
}

decodes :
    (t : Text)
    → small_codec.encode (with_identity (codes "01") 5 new_plan) ≡ ok t
    → small_codec.decode t ≡ ok (with_identity (codes "01") 5 new_plan)
unfolding with_identity
decodes t e = let same : codes "01" ≡ t = cc e in rw (sym same) refl

save_plan-Saves_example :
    Saves small_codec
      (codes "/s")
      none
      (with_identity (codes "01") 5 new_plan)
      []
      (save_plan small_codec (codes "/s") no_fault (codes "01") 5 new_plan [])
    × Elsewhere small_codec
        (codes "/s")
        (with_identity (codes "01") 5 new_plan)
        []
        (save_plan small_codec (codes "/s") no_fault (codes "01") 5 new_plan []).1
save_plan-Saves_example =
    save_plan-Saves small_codec (codes "/s") no_fault (codes "01") 5 new_plan [] decodes

-- A plan whose checksum could not be written is loaded, and not verified.
without_checksum :
    verify_plan small_codec
      (codes "/s")
      (codes "c")
      (codes "01")
      (save_plan small_codec
        (codes "/s")
        (record no_fault { write_checksum = some [] })
        (codes "01")
        5
        new_plan
        []).1
    ≡ ok false
unfolding with_identity save_plan store_plan encode_plan write_plan rename_plan write_checksum
    verify_plan same_checksum get_plans_dir get_store_path lookup insert delete text_eq
without_checksum = refl

delete_plan-Deletes_example :
    Deletes small_codec
      (codes "/s")
      (codes "c")
      (codes "01")
      (save_plan small_codec (codes "/s") no_fault (codes "01") 5 new_plan []).1
      (delete_plan small_codec
        (codes "/s")
        no_fault
        (codes "c")
        (codes "01")
        (save_plan small_codec (codes "/s") no_fault (codes "01") 5 new_plan []).1)
delete_plan-Deletes_example =
    delete_plan-Deletes small_codec (codes "/s") no_fault (codes "c") (codes "01")
      (save_plan small_codec (codes "/s") no_fault (codes "01") 5 new_plan []).1
