-- ===== src/Examples/Orders.antt =====
-- Two orders in which ranges visit the entries of a map.
use developer_portal_control.Prelude.{String, [], ◌∷◌, ◌≡◌, refl, ◌↔◌, inl, inr, In, length}
use developer_portal_control.Api.External.{AuthenticationSpec, AuthMethods, Ranges}

-- Ranges that visit the entries as they stand, and ranges that visit the second one first.
abbrev pub in_order : Ranges
in_order = record {
  visit = λ k n m. m;
  visit-In = λ k n m e. (λ i. i, λ i. i);
  length-visit = λ k n m. refl;
}

abbrev pub second_first : AuthMethods → AuthMethods
second_first [] = []
second_first (x ∷ []) = x ∷ []
second_first (x ∷ y ∷ m) = y ∷ x ∷ m

second_first-In :
    (m : AuthMethods) (e : String × AuthenticationSpec) → In e (second_first m) ↔ In e m
second_first-In [] e = (λ i. i, λ i. i)
second_first-In (x ∷ []) e = (λ i. i, λ i. i)
second_first-In (x ∷ y ∷ m) e = (turn y x m e, turn x y m e)
  where
    turn :
        (x y : String × AuthenticationSpec) (m : AuthMethods) (e : String × AuthenticationSpec)
        → In e (x ∷ y ∷ m)
        → In e (y ∷ x ∷ m)
    turn x y m e (inl p) = inr (inl p)
    turn x y m e (inr (inl p)) = inl p
    turn x y m e (inr (inr i)) = inr (inr i)

length-second_first : (m : AuthMethods) → length (second_first m) ≡ length m
length-second_first [] = refl
length-second_first (x ∷ []) = refl
length-second_first (x ∷ y ∷ m) = refl

abbrev pub out_of_order : Ranges
unfolding second_first-In length-second_first
out_of_order = record {
  visit = λ k n m. second_first m;
  visit-In = λ k n m e. second_first-In m e;
  length-visit = λ k n m. length-second_first m;
}
