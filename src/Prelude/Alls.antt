-- ===== src/Prelude/Alls.antt =====
-- `All` and `Lacks` over appended lists, and what moving one element does to them.
use bsrs.Prelude.Lists.{All}
use mathlib.Core.Path.{◌≡◌}
use mathlib.Core.List.{List, [], ◌∷◌, ◌++◌}
use mathlib.Core.List.Perm
use mathlib.Core.List.{Perm, perm_middle}

module _ {ℓ} {A : Type ℓ} where
  pub All-append {κ} : (P : A → Type κ) (xs ys : List A) → All P xs → All P ys → All P (xs ++ ys)
  All-append P [] ys h k = k
  All-append P (x ∷ xs) ys h k = (h.0, All-append P xs ys h.1 k)

  pub All-split {κ} : (P : A → Type κ) (xs ys : List A) → All P (xs ++ ys) → All P xs × All P ys
  All-split P [] ys h = (tt, h)
  All-split P (x ∷ xs) ys h = let (k, l) = All-split P xs ys h.1 in ((h.0, k), l)

  -- One element put in, or taken out, anywhere.
  pub All-put {κ} :
      (P : A → Type κ) (b : List A) (x : A) (a : List A) → P x → All P (b ++ a) → All P (b ++ x ∷ a)
  All-put P [] x a h k = (h, k)
  All-put P (y ∷ b) x a h k = (k.0, All-put P b x a h k.1)

  pub All-take {κ} :
      (P : A → Type κ) (b : List A) (x : A) (a : List A) → All P (b ++ x ∷ a) → P x × All P (b ++ a)
  All-take P [] x a h = h
  All-take P (y ∷ b) x a h = let (k, l) = All-take P b x a h.1 in (k, (h.0, l))

  -- Out of one place and into another.
  pub move-perm :
      (b : List A) (x : A) (a c d : List A) → b ++ a ≡ c ++ d → Perm (c ++ x ∷ d) (b ++ x ∷ a)
  move-perm b x a c d e = Perm.trans (perm_middle c d) (Perm.symm (rw (← e) (perm_middle b a)))

  pub perm_of_eq : {xs ys : List A} → xs ≡ ys → Perm xs ys
  perm_of_eq {xs} {ys} e = rw e (Perm.refl ys)
