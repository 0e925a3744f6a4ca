-- ===== src/KnownHosts/Refinement.antt =====
-- `known_hosts` as a map from users to keys: what the three functions promise, and that they keep it.
use shyake.Base.{
  ◌≤◌, ◌≡◌, ◌≢◌, refl, ap, sym, ◌∙◌, false, Bytes, [], ◌∷◌, ◌++◌, append_assoc, append-nil, List,
  Option, none, some, inl, inr, ◌>>=◌, map, codes, length, length-append, take_all, All, All-append,
  equal, equal_iff, if◌then◌else◌, Bool-cases, arith,
}
use shyake.Os.{Disk, read, write, read-write, read-rename}
use shyake.Context.{path_in}
use shyake.Context.Paths.{path_in_differs}
use shyake.KnownHosts.{
  Entry, print_entry, lines, hosts_path, content_of, find_line, other_lines, get_known_host,
  add_known_host, update_known_host,
}
use shyake.KnownHosts.Lines.{IsPrintable, scan-print_entry, render, lines-render}

-- The specification: an ordered list of entries, of which the first counts.
abbrev pub lookup_host : Bytes → List Entry → Option Bytes
lookup_host u [] = none
lookup_host u (e ∷ es) = if equal e.user u then some e.pk else lookup_host u es

abbrev pub without : Bytes → List Entry → List Entry
without u [] = []
without u (e ∷ es) = if equal e.user u then without u es else e ∷ without u es

find_line-lookup_host :
    (u : Bytes) (es : List Entry)
    → All IsPrintable es
    → find_line u (map print_entry es) ≡ lookup_host u es
unfolding find_line
find_line-lookup_host u [] h = refl
find_line-lookup_host u (e ∷ es) h =
    rw (scan-print_entry e h.0, find_line, find_line-lookup_host u es h.1)

other_lines-render :
    (u : Bytes) (es : List Entry)
    → All IsPrintable es
    → other_lines u (map print_entry es) ≡ render (without u es)
unfolding other_lines
other_lines-render u [] h = refl
other_lines-render u (e ∷ es) h = elim (Bool-cases (equal e.user u)) [
  | inl same ↦ rw (scan-print_entry e h.0, other_lines, same, other_lines-render u es h.1)
  | inr other ↦ rw (scan-print_entry e h.0, other_lines, other, other_lines-render u es h.1)
]

without-IsPrintable :
    (u : Bytes) (es : List Entry) → All IsPrintable es → All IsPrintable (without u es)
without-IsPrintable u [] h = tt
without-IsPrintable u (e ∷ es) h = elim (Bool-cases (equal e.user u)) [
  | inl same ↦ rw same (without-IsPrintable u es h.1)
  | inr other ↦ rw other (h.0, without-IsPrintable u es h.1)
]

render-append : (es fs : List Entry) → render (es ++ fs) ≡ render es ++ render fs
render-append [] fs = refl
render-append (e ∷ es) fs = simp (render-append es fs, append_assoc)

lookup_host-append :
    (u : Bytes) (es : List Entry) (e : Entry)
    → lookup_host u (es ++ e ∷ []) ≡ elim (lookup_host u es) [
      | none ↦ (if equal e.user u then some e.pk else none)
      | some k ↦ some k
    ]
lookup_host-append u [] e = refl
lookup_host-append u (x ∷ es) e = ground (arith, lookup_host-append u es e)

lookup_host-without :
    (u other : Bytes) (es : List Entry)
    → lookup_host other (without u es) ≡ (if equal u other then none else lookup_host other es)
lookup_host-without u other [] = ground arith
lookup_host-without u other (e ∷ es) = ground (
  arith,
  lookup_host-without u other es,
  equal_iff e.user u,
  equal_iff e.user other,
  equal_iff u other,
)

-- The file of this directory holds these entries; no file holds none.
pub record Holds (config_dir : Bytes) (d : Disk) (es : List Entry) : Type 0 where
  pub content : content_of (read d (hosts_path config_dir)) ≡ render es
  pub printable : All IsPrintable es

render-ne-nil : (e : Entry) (es : List Entry) → render (e ∷ es) ≢ []
unfolding print_entry
render-ne-nil e es h =
    let tail = b' ' ∷ (e.fp ++ (b' ' ∷ (e.pk ++ (b'\n' ∷ [])))) in
    absurd (
      omega
        (arith, ap length h, length-append (e.user ++ tail) (render es), length-append e.user tail))

-- A look-up gives the first entry of the user.
get_known_host-Holds :
    (config_dir u : Bytes) (d : Disk) (es : List Entry)
    → Holds config_dir d es
    → get_known_host config_dir u d ≡ lookup_host u es
unfolding get_known_host
get_known_host-Holds config_dir u d es holds =
    go (read d (hosts_path config_dir)) es holds.content holds.printable
  where
    go :
        (file : Option Bytes) (es : List Entry)
        → content_of file ≡ render es
        → All IsPrintable es
        → (file >>= λ content. find_line u (lines content)) ≡ lookup_host u es
    go none [] e p = refl
    go none (x ∷ xs) e p = absurd (render-ne-nil x xs (sym e))
    go (some file) es e p = rw (e, lines-render es p) (find_line-lookup_host u es p)

names_differ : equal (codes "known_hosts.tmp") (codes "known_hosts") ≡ false
unfolding equal
names_differ = refl

module _ (config_dir : Bytes) (new : Entry) (d : Disk) (es : List Entry) where
  -- The new file is another one, where no path is cut.
  opened_content :
      length config_dir ≤ 495
      → read (write d (path_in config_dir (codes "known_hosts.tmp")) []) (hosts_path config_dir)
        ≡ read d (hosts_path config_dir)
  opened_content whole =
      let tmp = path_in config_dir (codes "known_hosts.tmp") in
      let other : equal tmp (hosts_path config_dir) ≡ false =
        path_in_differs config_dir (codes "known_hosts.tmp") (codes "known_hosts") (omega arith)
          (omega arith) names_differ in
      read-write d tmp (hosts_path config_dir) [] ∙ rw other refl

  -- An update leaves the file with the other users' entries and the new one, if no path is cut and the new
  -- file can be written whole.
  pub update_known_host-Holds :
      Holds config_dir d es
      → IsPrintable new
      → length config_dir ≤ 495
      → d.denied (path_in config_dir (codes "known_hosts.tmp")) ≡ false
      → length (render (without new.user es ++ new ∷ []))
        ≤ d.room (path_in config_dir (codes "known_hosts.tmp"))
      → Holds config_dir
          (update_known_host config_dir new.user new.fp new.pk d)
          (without new.user es ++ new ∷ [])
  unfolding update_known_host
  update_known_host-Holds holds p whole open_ok room =
      let tmp = path_in config_dir (codes "known_hosts.tmp") in
      let path = hosts_path config_dir in
      let c = render (without new.user es ++ new ∷ []) in
      let kept : other_lines new.user (lines (content_of (read (write d tmp []) path)))
            ++ print_entry new
          ≡ c =
        rw (
          opened_content whole,
          holds.content,
          lines-render es holds.printable,
          other_lines-render new.user es holds.printable,
          render-append (without new.user es) (new ∷ []),
          append-nil,
        ) in
      let written : read (write d tmp c) tmp ≡ some c =
        rw (read-write d tmp tmp c, (equal_iff tmp tmp).1 refl, take_all (d.room tmp) c room) in
      record {
        content = rw (
          open_ok,
          kept,
          read-rename (write d tmp c) tmp path c path written,
          (equal_iff path path).1 refl,
        );
        printable =
            All-append IsPrintable _ _ (without-IsPrintable new.user es holds.printable) (p, tt);
      }

  -- Trusting a first key appends its entry, if the file can be written whole.
  pub add_known_host-Holds :
      Holds config_dir d es
      → IsPrintable new
      → d.denied (hosts_path config_dir) ≡ false
      → length (render (es ++ new ∷ [])) ≤ d.room (hosts_path config_dir)
      → Holds config_dir (add_known_host config_dir new.user new.fp new.pk d) (es ++ new ∷ [])
  unfolding add_known_host
  add_known_host-Holds holds p open_ok room =
      let path = hosts_path config_dir in
      let c = render (es ++ new ∷ []) in
      let kept : content_of (read d path) ++ print_entry new ≡ c =
        rw (holds.content, render-append es (new ∷ []), append-nil) in
      record {
        content = rw (
          open_ok,
          kept,
          read-write d path path c,
          (equal_iff path path).1 refl,
          take_all (d.room path) c room,
        );
        printable = All-append IsPrintable es _ holds.printable (p, tt);
      }

  -- After an update with no path cut and that can be written whole the user has the new key, and every other user the
  -- key they had.
  pub get-update_known_host :
      (other : Bytes)
      → Holds config_dir d es
      → IsPrintable new
      → length config_dir ≤ 495
      → d.denied (path_in config_dir (codes "known_hosts.tmp")) ≡ false
      → length (render (without new.user es ++ new ∷ []))
        ≤ d.room (path_in config_dir (codes "known_hosts.tmp"))
      → get_known_host config_dir other (update_known_host config_dir new.user new.fp new.pk d)
        ≡ (if equal new.user other then some new.pk else get_known_host config_dir other d)
  get-update_known_host other holds p whole open_ok room =
      rw
        (
          get_known_host-Holds config_dir other _ _
              (update_known_host-Holds holds p whole open_ok room),
          get_known_host-Holds config_dir other d es holds,
          lookup_host-append other (without new.user es) new,
          lookup_host-without new.user other es,
        )
        (ground (arith, Bool-cases (equal new.user other)))

  -- After a first key is added, in a file that can be written whole, the user has it, unless an older
  -- entry of that user stands before it.
  pub get-add_known_host :
      (other : Bytes)
      → Holds config_dir d es
      → IsPrintable new
      → d.denied (hosts_path config_dir) ≡ false
      → length (render (es ++ new ∷ [])) ≤ d.room (hosts_path config_dir)
      → get_known_host config_dir other (add_known_host config_dir new.user new.fp new.pk d)
        ≡ elim (get_known_host config_dir other d) [
          | none ↦ (if equal new.user other then some new.pk else none)
          | some k ↦ some k
        ]
  get-add_known_host other holds p open_ok room = rw (
    get_known_host-Holds config_dir other _ _ (add_known_host-Holds holds p open_ok room),
    get_known_host-Holds config_dir other d es holds,
    lookup_host-append other es new,
  )
