-- ===== src/TempFile/Laws.antt =====
-- The name of a temporary file, and that it is removed once.
use koho.Prelude.{
  ℕ, ◌<◌, ◌^◌, ◌≡◌, refl, ap, inl, inr, true, false, Option, some, List, [], ◌∷◌, ◌++◌, arith, ltb,
  length, length-append, ok, ◌>>>◌, Option-cases, lt→ltb, is_empty, length-pos,
}
use koho.FileDescriptor.Construct.{fresh, construct_works}
use koho.Text.{bytes}
use koho.TempFile.{UniqueFile, to_mutable, construct, but_last, name, move, destroy}

but_last-to_mutable : (text : List ℕ) → but_last (text ++ 0 ∷ []) ≡ text
but_last-to_mutable [] = refl
but_last-to_mutable (x ∷ []) = refl
but_last-to_mutable (x ∷ y ∷ rest) = ap (λ l. x ∷ l) (but_last-to_mutable (y ∷ rest))

named :
    (file : UniqueFile) (text : List ℕ)
    → file.mutable_temp_filename ≡ to_mutable text
    → is_empty text ≡ false
    → name file ≡ ok text
unfolding name to_mutable
named file text chosen nonempty =
    let long : ltb 1 (length (text ++ 0 ∷ [])) ≡ true =
      lt→ltb _ _ (omega (arith, length-append text (0 ∷ []), length-pos text nonempty)) in
    rw (chosen, long) (ap ok (but_last-to_mutable text))

-- When mkstemp(3) has made a file, with a name that is not empty and a descriptor that is not one of
-- the standard three, the object exists, and its name is the file's.
pub name-construct :
    (mkstemp : List ℕ → Option (ℕ × List ℕ)) (fcntl : ℕ → Option ℕ) (template chosen : List ℕ)
    (fd flags : ℕ)
    → mkstemp (to_mutable (template ++ bytes ".XXXXXX")) ≡ some (fd, to_mutable chosen)
    → is_empty chosen ≡ false
    → 2 < fd
    → fd < 2 ^ 31
    → fcntl fd ≡ some flags
    → (file : UniqueFile) × (construct mkstemp fcntl template ≡ ok file)
      × (name file ≡ ok chosen)
      × (file.moved_away ≡ false)
unfolding construct
name-construct mkstemp fcntl template chosen fd flags made nonempty low high answer =
    let file : UniqueFile = record {
      mutable_temp_filename = to_mutable chosen;
      file = record { descriptor = fresh fd; accepted = [] };
      moved_away = false;
    } in
    (
      file,
      rw (made, construct_works fd (fcntl fd) flags low high answer) refl,
      named file chosen refl nonempty,
      refl,
    )

removes :
    {W : Type 0} (unlink : List ℕ → W → Option ℕ × W) (file : UniqueFile) (text : List ℕ) (w : W)
    → file.moved_away ≡ false
    → name file ≡ ok text
    → destroy unlink file w ≡ (ok tt, (unlink text w).1)
unfolding destroy
removes unlink file text w here has = elim (Option-cases (unlink text w).0) [
  | inl failed ↦ rw (has, here, failed) refl
  | inr (n, done) ↦ rw (has, here, done) refl
]

-- A file that has been moved to another object, with a name: the two destructors, in either order,
-- never throw, and together ask the kernel just once, to remove the file of that name.
pub destroy-move :
    {W : Type 0} (unlink : List ℕ → W → Option ℕ × W) (file : UniqueFile) (text : List ℕ) (w : W)
    → name file ≡ ok text
    → let (new, old) = move file in
      ((destroy unlink new w >>> λ _ v. destroy unlink old v) ≡ (ok tt, (unlink text w).1))
      × ((destroy unlink old w >>> λ _ v. destroy unlink new v) ≡ (ok tt, (unlink text w).1))
unfolding move destroy
destroy-move unlink file text w has =
    let once = removes unlink (move file).0 text w refl (unfold name in has) in (rw once refl, once)
