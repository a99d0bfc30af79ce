-- ===== src/Plan/Store/Kept.antt =====
-- What the store of pkg/plan/store.go gives back.
use mup.Base.{ℕ, ◌≡◌, ◌∙◌, refl, true, false, [], ◌∷◌, ◌++◌, Option, none, some, inl, inr, arith}
use mup.Base.Text.{Text, codes, text_eq, text_eq_refl}
use mup.Base.Dict.{lookup, insert, delete, lookup-insert, lookup-delete}
use mup.Base.Results.{Error, Result, ok, err, Result-cases}
use mup.Plan.{Plan}
use mup.Plan.Store.{
  Disk, Codec, Io, get_store_path, temp_path, checksum_path, with_identity, write_checksum,
  rename_plan, write_plan, encode_plan, store_plan, save_plan, load_plan, same_checksum,
  verify_plan,
}

-- A path is none of those that begin with it and go on.
pub text_eq-longer : (s t : Text) (c : ℕ) → text_eq (s ++ c ∷ t) s ≡ false
unfolding text_eq
text_eq-longer [] t c = refl
text_eq-longer (x ∷ s) t c = ground (arith, text_eq-longer s t c)

module _ (codec : Codec) where
  -- The disk after a rename.
  abbrev renamed : Text → Text → Disk → Disk
  renamed path bytes d =
      delete (temp_path path) (insert path bytes (insert (temp_path path) bytes d))

  lookup-renamed : (path bytes : Text) (d : Disk) → lookup path (renamed path bytes d) ≡ some bytes
  lookup-renamed path bytes d =
      rw
        (
          lookup-delete (temp_path path) path (insert path bytes (insert (temp_path path) bytes d)),
          text_eq-longer path (codes "tmp") b'.',
          lookup-insert path path bytes (insert (temp_path path) bytes d),
          text_eq_refl path,
        )
        refl

  renamed_other :
      (path bytes j : Text) (d : Disk)
      → text_eq path j ≡ false
      → text_eq (temp_path path) j ≡ false
      → lookup j (renamed path bytes d) ≡ lookup j d
  renamed_other path bytes j d e f =
      rw
        (
          lookup-delete (temp_path path) j (insert path bytes (insert (temp_path path) bytes d)),
          f,
          lookup-insert path j bytes (insert (temp_path path) bytes d),
          e,
          lookup-insert (temp_path path) j bytes d,
          f,
        )
        refl

  -- The disk in the end, by the result of the last write.
  lookup-write_checksum :
      (io : Option Error) (path bytes j : Text) (d : Disk)
      → text_eq (checksum_path path) j ≡ false
      → lookup j (write_checksum codec io path bytes d) ≡ lookup j d
  unfolding write_checksum
  lookup-write_checksum none path bytes j d e =
      rw (lookup-insert (checksum_path path) j (codec.checksum bytes) d, e) refl
  lookup-write_checksum (some x) path bytes j d e = refl

  write_checksum_self :
      (io : Option Error) (path bytes : Text) (d : Disk)
      → io ≡ none
      → lookup (checksum_path path) (write_checksum codec io path bytes d)
        ≡ some (codec.checksum bytes)
  unfolding write_checksum
  write_checksum_self none path bytes d e =
      rw
        (
          lookup-insert (checksum_path path) (checksum_path path) (codec.checksum bytes) d,
          text_eq_refl (checksum_path path),
        )
        refl
  write_checksum_self (some x) path bytes d e = absurd (cc e)

module _ (codec : Codec) (storage_dir : Text) where
  abbrev path_of : Plan → Text
  path_of q = get_store_path storage_dir q.cluster_name q.plan_id

  -- A plan that is saved is loaded as it is, and verified if its checksum could be written. One that is not
  -- leaves the file of the plan as it was.
  pub data Saves (last : Option Error) (q : Plan) (d : Disk) : Result Text × Disk → Type 0 where
    saved :
        {d' : Disk}
        → load_plan codec storage_dir q.cluster_name q.plan_id d' ≡ ok q
        → (last ≡ none → verify_plan codec storage_dir q.cluster_name q.plan_id d' ≡ ok true)
        → Saves last q d (ok q.plan_id, d')
    refused :
        {e : Error} {d' : Disk}
        → lookup (path_of q) d' ≡ lookup (path_of q) d
        → Saves last q d (err e, d')

  -- The files of no other plan change.
  abbrev pub Elsewhere : Plan → Disk → Disk → Type 0
  Elsewhere q d d' =
      (j : Text)
      → text_eq (path_of q) j ≡ false
      → text_eq (temp_path (path_of q)) j ≡ false
      → text_eq (checksum_path (path_of q)) j ≡ false
      → lookup j d' ≡ lookup j d

  module _ (q : Plan) (decodes : (t : Text) → codec.encode q ≡ ok t → codec.decode t ≡ ok q) where
    load_written :
        (bytes : Text) (d : Disk)
        → codec.encode q ≡ ok bytes
        → lookup (path_of q) d ≡ some bytes
        → load_plan codec storage_dir q.cluster_name q.plan_id d ≡ ok q
    unfolding load_plan
    load_written bytes d e f = rw (f, load_plan, decodes bytes e) refl

  verify_written :
      (q : Plan) (bytes : Text) (d : Disk)
      → lookup (path_of q) d ≡ some bytes
      → lookup (checksum_path (path_of q)) d ≡ some (codec.checksum bytes)
      → verify_plan codec storage_dir q.cluster_name q.plan_id d ≡ ok true
  unfolding verify_plan same_checksum
  verify_written q bytes d e f =
      rw (e, verify_plan, f, same_checksum, text_eq_refl (codec.checksum bytes)) refl

  abbrev Kept : Option Error → Plan → Disk → Result Text × Disk → Type 0
  Kept last q d r = Saves last q d r × Elsewhere q d r.1

  temp_deleted :
      (path bytes j : Text) (d : Disk)
      → text_eq (temp_path path) j ≡ false
      → lookup j (delete (temp_path path) (insert (temp_path path) bytes d)) ≡ lookup j d
  temp_deleted path bytes j d e =
      rw
        (
          lookup-delete (temp_path path) j (insert (temp_path path) bytes d),
          e,
          lookup-insert (temp_path path) j bytes d,
          e,
        )
        refl

  module _ (q : Plan) (decodes : (t : Text) → codec.encode q ≡ ok t → codec.decode t ≡ ok q)
      (last : Option Error) (d : Disk) where
    renamed-Kept :
        (bytes : Text)
        → codec.encode q ≡ ok bytes
        → Kept last q d (
          ok q.plan_id,
          write_checksum codec last (path_of q) bytes (renamed codec (path_of q) bytes d),
        )
    renamed-Kept bytes e =
        let path = path_of q in
        let d1 = renamed codec path bytes d in
        (
          saved
              (load_written q decodes bytes _ e (
                lookup-write_checksum codec last path bytes path d1
                  (text_eq-longer path (codes "sha256") b'.')
                ∙ lookup-renamed codec path bytes d))
              (λ n.
                verify_written q bytes _
                  (lookup-write_checksum codec last path bytes path d1
                      (text_eq-longer path (codes "sha256") b'.')
                    ∙ lookup-renamed codec path bytes d)
                  (write_checksum_self codec last path bytes d1 n)),
          λ j a b c.
              lookup-write_checksum codec last path bytes j d1 c
              ∙ renamed_other codec path bytes j d a b,
        )

    rename_plan-Kept :
        (rename : Option Error) (bytes : Text)
        → codec.encode q ≡ ok bytes
        → Kept last q d (
            rename_plan codec rename last q.plan_id
              (path_of q)
              bytes
              (insert (temp_path (path_of q)) bytes d))
    unfolding rename_plan
    rename_plan-Kept none bytes e = renamed-Kept bytes e
    rename_plan-Kept (some x) bytes e = (
      refused (
          temp_deleted (path_of q) bytes (path_of q) d
            (text_eq-longer (path_of q) (codes "tmp") b'.')),
      λ j a b c. temp_deleted (path_of q) bytes j d b,
    )

    write_plan-Kept :
        (write rename : Option Error) (bytes : Text)
        → codec.encode q ≡ ok bytes
        → Kept last q d (write_plan codec write rename last q.plan_id (path_of q) bytes d)
    unfolding write_plan
    write_plan-Kept none rename bytes e = rename_plan-Kept rename bytes e
    write_plan-Kept (some x) rename bytes e = (refused refl, λ j a b c. refl)

    encode_plan-Kept :
        (write rename : Option Error)
        → Kept last q d (encode_plan codec write rename last (path_of q) q d)
    unfolding encode_plan
    encode_plan-Kept write rename = elim (Result-cases (codec.encode q)) [
      | inl (x, e) ↦ rw (e, encode_plan) (refused refl, λ j a b c. refl)
      | inr (bytes, e) ↦ rw (e, encode_plan) (write_plan-Kept write rename bytes e)
    ]

    store_plan-Kept :
        (mkdir write rename : Option Error)
        → Kept last q d (store_plan codec storage_dir mkdir write rename last q d)
    unfolding store_plan
    store_plan-Kept none write rename = encode_plan-Kept write rename
    store_plan-Kept (some x) write rename = (refused refl, λ j a b c. refl)

-- Where decoding gives back the plan that was encoded, SavePlan does one of two things. It returns the id of the plan,
-- with an id and a time if it had none, and then LoadPlan returns that plan, and VerifyPlan says true if the
-- checksum could be written too. Or it returns an error, and the file of the plan is as it was. In both cases
-- no file but the plan's, its checksum's and its temporary one changes.
pub save_plan-Saves :
    (codec : Codec) (storage_dir : Text) (io : Io) (fresh : Text) (now : ℕ) (p : Plan) (d : Disk)
    → ((t : Text)
        → codec.encode (with_identity fresh now p) ≡ ok t
        → codec.decode t ≡ ok (with_identity fresh now p))
    → Saves codec storage_dir io.write_checksum
        (with_identity fresh now p)
        d
        (save_plan codec storage_dir io fresh now p d)
      × Elsewhere codec storage_dir
          (with_identity fresh now p)
          d
          (save_plan codec storage_dir io fresh now p d).1
unfolding save_plan
save_plan-Saves codec storage_dir io fresh now p d decodes =
    store_plan-Kept codec storage_dir (with_identity fresh now p) decodes io.write_checksum d
      io.mkdir io.write io.rename
