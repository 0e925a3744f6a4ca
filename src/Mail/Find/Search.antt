-- ===== src/Mail/Find/Search.antt =====
-- The two loops behind `shyake_find_ref` of client/src/lib/mail.c.
use mathlib.Core.Option.{some_inj}
use shyake.Base.{
  ◌≡◌, ◌≢◌, refl, ap, inl, inr, true, Bytes, [], ◌∷◌, List, Option, none, some, Bool-cases,
  equal_iff, arith,
}
use mathlib.Core.List.{Memᴰ}
use shyake.Os.{Disk}
use shyake.Client.{Libs}
use shyake.Mail.Lists.{MailEntry}
use shyake.Mail.Saved.{is_json, stem}
use shyake.Mail.Find.{is_same_ref, find_entry, file_ref, find_name}

-- A mail of the list that has this reference.
abbrev pub InList : Bytes → Bytes → List MailEntry → Type 0
InList reference id list =
    (e : MailEntry) × Memᴰ e list × (e.mail_ref ≡ some reference) × (e.mail_id ≡ id)

is_same_ref_eq :
    (r : Option Bytes) (reference : Bytes) → is_same_ref r reference ≡ true → r ≡ some reference
is_same_ref_eq none reference h = cc
is_same_ref_eq (some r) reference h = ap {B = Option Bytes} some ((equal_iff r reference).0 h)

pub find_entry-InList :
    (reference id : Bytes) (list : List MailEntry)
    → find_entry reference list ≡ some id
    → InList reference id list
unfolding find_entry
find_entry-InList reference id [] h = cc
find_entry-InList reference id (e ∷ list) h = elim (Bool-cases (is_same_ref e.mail_ref reference)) [
  | inl same ↦
      let h' = rw same at h in
      (e, Memᴰ.head refl, is_same_ref_eq e.mail_ref reference same, some_inj.0 h')
  | inr other ↦
      let (f, m, r, i) = find_entry-InList reference id list (rw other at h) in
      (f, Memᴰ.tail m, r, i)
]

module _ (L : Libs) where
  -- A saved file that has this reference.
  abbrev pub InSaved : Bytes → Disk → Bytes → Bytes → List Bytes → Type 0
  InSaved dir_path d reference id names =
      (name : Bytes) × Memᴰ name names
      × (is_json name ≡ true)
      × (file_ref L dir_path d name ≡ some reference)
      × (stem name ≡ id)

  InSaved-tail :
      (dir_path : Bytes) (d : Disk) (reference id name : Bytes) (names : List Bytes)
      → InSaved dir_path d reference id names
      → InSaved dir_path d reference id (name ∷ names)
  InSaved-tail dir_path d reference id name names (n, m, json, same, id_is) =
      (n, Memᴰ.tail m, json, same, id_is)

  pub find_name-InSaved :
      (dir_path : Bytes) (d : Disk) (reference id : Bytes) (names : List Bytes)
      → find_name L dir_path d reference names ≡ some id
      → InSaved dir_path d reference id names
  unfolding find_name
  find_name-InSaved dir_path d reference id [] h = cc
  find_name-InSaved dir_path d reference id (name ∷ names) h = elim (Bool-cases (is_json name)) [
    | inl json ↦ elim (Bool-cases (is_same_ref (file_ref L dir_path d name) reference)) [
      | inl same ↦ (
        name,
        Memᴰ.head refl,
        json,
        is_same_ref_eq _ reference same,
        some_inj.0 (rw (json, same) at h),
      )
      | inr other ↦
          InSaved-tail dir_path d reference id name names
            (find_name-InSaved dir_path d reference id names (rw (json, other) at h))
    ]
    | inr other ↦
        InSaved-tail dir_path d reference id name names
          (find_name-InSaved dir_path d reference id names (rw other at h))
  ]

  pub find_name-none :
      (dir_path : Bytes) (d : Disk) (reference name : Bytes) (names : List Bytes)
      → find_name L dir_path d reference names ≡ none
      → Memᴰ name names
      → is_json name ≡ true
      → file_ref L dir_path d name ≢ some reference
  unfolding find_name
  find_name-none dir_path d reference name [] h m json same = elim m [ ]
  find_name-none dir_path d reference name (n ∷ names) h (Memᴰ.head e) json same =
      let found : is_same_ref (file_ref L dir_path d n) reference ≡ true =
        rw (← e, same) ((equal_iff reference reference).1 refl) in
      let h' = rw (← e, json, same, (equal_iff reference reference).1 refl) at h in cc
  find_name-none dir_path d reference name (n ∷ names) h (Memᴰ.tail m) json same =
      find_name-none dir_path d reference name names (ground (arith, h)) m json same
