-- ===== src/Meta/Sequence.antt =====
-- Conditions that a controller sets one after the other, as calculateStatus of the APIProduct does.
use mathlib.Core.Path.{subst}
use developer_portal_control.Prelude.{
  ℕ, String, false, Option, none, some, List, [], ◌∷◌, ◌≡◌, refl, sym, ap, ◌∙◌, inl, inr, ◌==◌,
  eq_iff, eq_refl, arith, In, any, any-false, if◌then◌else◌,
}
use developer_portal_control.Meta.{Condition, Meta, merged}

-- No two conditions of the list have one type.
abbrev pub HasDistinctTypes : List Condition → Type 0
HasDistinctTypes [] = Unit {0}
HasDistinctTypes (c ∷ cs) = (any (λ e. e.type == c.type) cs ≡ false) × HasDistinctTypes cs

-- What stands in the list is merged with itself.
pub merged-merged :
    (now later : ℕ) (o : Option Condition) (c : Condition)
    → merged later (some (merged now o c)) c ≡ merged now o c
merged-merged now later none c = ground arith
merged-merged now later (some old) c = ground arith

module _ (meta : Meta) where
  unfoldable pub set_all : ℕ → List Condition → List Condition → List Condition
  set_all now cs [] = cs
  set_all now cs (v ∷ vs) = set_all now (meta.set now cs v) vs

  pub find-set_all_other :
      (now : ℕ) (cs vs : List Condition) (t : String)
      → any (λ e. e.type == t) vs ≡ false
      → meta.find (set_all now cs vs) t ≡ meta.find cs t
  unfolding set_all
  find-set_all_other now cs [] t h = refl
  find-set_all_other now cs (v ∷ vs) t h =
      ground (arith, find-set_all_other now (meta.set now cs v) vs t, meta.find-set now cs v t)

  -- Of conditions with distinct types, each one stands in the list at the end.
  pub find-set_all :
      (now : ℕ) (cs vs : List Condition) (v : Condition)
      → HasDistinctTypes vs
      → In v vs
      → meta.find (set_all now cs vs) v.type ≡ some (merged now (meta.find cs v.type) v)
  unfolding set_all
  find-set_all now cs [] v h i = absurd i
  find-set_all now cs (x ∷ vs) v (d, ds) (inl e) =
      subst
        (λ (z : Condition).
          meta.find (set_all now (meta.set now cs x) vs) z.type
          ≡ some (merged now (meta.find cs z.type) z))
        e
        (find-set_all_other now (meta.set now cs x) vs x.type d
          ∙ (meta.find-set now cs x x.type
              ∙ ap
                  (λ b.
                    if b then some (merged now (meta.find cs x.type) x) else meta.find cs x.type)
                  (eq_refl x.type)))
  find-set_all now cs (x ∷ vs) v (d, ds) (inr i) =
      find-set_all now (meta.set now cs x) vs v ds i
      ∙ ap (λ o. some (merged now o v))
          (ground (
            arith,
            meta.find-set now cs x v.type,
            any-false (λ (e : Condition). e.type == x.type) v vs d i,
            eq_iff x.type v.type,
            eq_iff v.type x.type,
          ))

  -- Setting what is there changes nothing.
  pub set_all_stable :
      (later : ℕ) (cs vs : List Condition)
      → ((v : Condition)
          → In v vs
          → meta.find cs v.type ≡ some (merged later (meta.find cs v.type) v))
      → set_all later cs vs ≡ cs
  unfolding set_all
  set_all_stable later cs [] h = refl
  set_all_stable later cs (v ∷ vs) h =
      rw (meta.set_stable later cs v (h v (inl refl)))
        (set_all_stable later cs vs (λ w i. h w (inr i)))

  -- A condition that was merged at one time is what it is merged with at another.
  pub again_merged :
      (now later : ℕ) (cs : List Condition) (o : Option Condition) (v : Condition)
      → meta.find cs v.type ≡ some (merged now o v)
      → meta.find cs v.type ≡ some (merged later (meta.find cs v.type) v)
  again_merged now later cs o v e =
      e ∙ ap some (sym (ap (λ x. merged later x v) e ∙ merged-merged now later o v))

  pub set_all_settles :
      (now later : ℕ) (cs vs : List Condition)
      → HasDistinctTypes vs
      → set_all later (set_all now cs vs) vs ≡ set_all now cs vs
  set_all_settles now later cs vs d = set_all_stable later (set_all now cs vs) vs (λ v i.
      again_merged now later (set_all now cs vs) (meta.find cs v.type) v
        (find-set_all now cs vs v d i))

  -- Setting them again, and removing another one again, changes nothing.
  pub set_all-remove_settles :
      (now later : ℕ) (cs vs : List Condition) (t : String)
      → HasDistinctTypes vs
      → any (λ e. e.type == t) vs ≡ false
      → meta.remove (set_all later (meta.remove (set_all now cs vs) t) vs) t
        ≡ meta.remove (set_all now cs vs) t
  set_all-remove_settles now later cs vs t d h =
      ap (λ xs. meta.remove xs t)
        (set_all_stable later (meta.remove (set_all now cs vs) t) vs (λ v i.
          again_merged now later (meta.remove (set_all now cs vs) t) (meta.find cs v.type) v (
            ground (
              arith,
              meta.find-remove (set_all now cs vs) t v.type,
              any-false (λ (e : Condition). e.type == t) v vs h i,
              eq_iff v.type t,
              eq_iff t v.type,
              find-set_all now cs vs v d i,
            ))))
      ∙ meta.remove_stable (meta.remove (set_all now cs vs) t) t (
          meta.find-remove (set_all now cs vs) t t
          ∙ ap (λ b. if b then none else meta.find (set_all now cs vs) t) (eq_refl t))
