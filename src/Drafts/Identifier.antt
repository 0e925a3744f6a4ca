-- ===== src/Drafts/Identifier.antt =====
-- client/src/cli/drafts.c: the choice of an identifier by `cli_save_draft`, whose file is then made.
use mathlib.Core.Option.{some_inj}
use shyake.Base.{
  ◌≡◌, refl, sym, ◌∙◌, equal, equal_iff, Bool-cases, Option-cases, inl, inr, ℕ, zero, suc, Bytes,
  Option, none, some, if◌then◌else◌,
}
use shyake.Base.Decimal.{show}
use shyake.Os.{Disk, read, write, read-write}
use shyake.Drafts.{draft_path}

-- The loop over `tries`: the first identifier from `id` of which there is no file.
unfoldable pub allocate : Bytes → Disk → ℕ → ℕ → Option Bytes
allocate dir d zero id = none
allocate dir d (suc tries) id = elim (read d (draft_path dir (show id))) [
  | some content ↦ allocate dir d tries (suc id)
  | none ↦ (if d.denied (draft_path dir (show id)) then none else some (show id))
]

-- `open` of a draft that is there.
unfoldable pub reopen : Bytes → Disk → Bytes → Option Bytes
reopen dir d draft_id = if d.denied (draft_path dir draft_id) then none else some draft_id

-- The identifier that is found is that of a file that is not there.
pub allocate_free :
    (dir : Bytes) (d : Disk) (tries id : ℕ) (found : Bytes)
    → allocate dir d tries id ≡ some found
    → read d (draft_path dir found) ≡ none
unfolding allocate
allocate_free dir d zero id found h = cc
allocate_free dir d (suc tries) id found h =
    elim (Option-cases (read d (draft_path dir (show id)))) [
      | inl free ↦ elim (Bool-cases (d.denied (draft_path dir (show id)))) [
        | inl denied ↦
            let refused : allocate dir d (suc tries) id ≡ none = rw (free, denied, allocate) refl in
            cc
        | inr allowed ↦
            let given : allocate dir d (suc tries) id ≡ some (show id) =
              rw (free, allowed, allocate) refl in
            let same : show id ≡ found = some_inj.0 (sym given ∙ h) in rw (sym same) free
      ]
      | inr (content, there) ↦
          let skipped : allocate dir d (suc tries) id ≡ allocate dir d tries (suc id) =
            rw (there, allocate) refl in
          allocate_free dir d tries (suc id) found (sym skipped ∙ h)
    ]

pub write_keeps :
    (d : Disk) (target path payload content : Bytes)
    → read d target ≡ none
    → read d path ≡ some content
    → read (write d target payload) path ≡ some content
write_keeps d target path payload content free there = elim (Bool-cases (equal target path)) [
  | inl same ↦ let at_target = (equal_iff target path).0 same in cc
  | inr apart ↦ rw (read-write d target path payload, apart) there
]
