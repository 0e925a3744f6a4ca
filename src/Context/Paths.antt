-- ===== src/Context/Paths.antt =====
-- Different names in the config directory are different files, where no path is cut.
use shyake.Base.{
  ◌+◌, ◌≤◌, ◌≡◌, refl, ◌∙◌, false, Bytes, [], ◌∷◌, ◌++◌, length, length-append, take_all, equal,
  arith,
}
use shyake.Context.{path_in}

equal-append : (s a b : Bytes) → equal (s ++ a) (s ++ b) ≡ equal a b
unfolding equal
equal-append [] a b = refl
equal-append (c ∷ s) a b = ground (arith, equal-append s a b)

pub path_in-whole :
    (dir a : Bytes) → length dir + length a ≤ 510 → path_in dir a ≡ dir ++ (b'/' ∷ a)
path_in-whole dir a h =
    take_all 511 (dir ++ (b'/' ∷ a)) (omega (arith, length-append dir (b'/' ∷ a)))

pub path_in_differs :
    (dir a b : Bytes)
    → length dir + length a ≤ 510
    → length dir + length b ≤ 510
    → equal a b ≡ false
    → equal (path_in dir a) (path_in dir b) ≡ false
path_in_differs dir a b ha hb h =
    rw (path_in-whole dir a ha, path_in-whole dir b hb)
      (equal-append dir (b'/' ∷ a) (b'/' ∷ b) ∙ unfold equal in h)
