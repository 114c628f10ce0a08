-- ===== src/KeyStatus/Phase.antt =====
-- The phase of a key, described without its conditions, and what it is for conditions to show it.
use developer_portal_control.Prelude.{
  ℕ, String, Bool, true, false, Option, none, some, List, [], ◌∷◌, ◌≡◌, refl, ◌≢◌, ◌==◌, eq_refl,
  if◌then◌else◌, arith, any,
}
use developer_portal_control.Meta.{Condition, Meta, merged, yes_true}
use developer_portal_control.Api.Key.{
  ApiKey, condition_denied, condition_approved, condition_pending, condition_failed,
  condition_expired, holds,
}
use developer_portal_control.Api.Approval.{ApiKeyApproval}
use developer_portal_control.KeyStatus.Conditions.{
  but_failed, but_denied, but_expired, but_approved, but_pending, has_expired, remove_all,
}

pub data Phase : Type 0 where
  failed denied expired approved pending : Phase

abbrev pub phase_type : Phase → String
phase_type failed = condition_failed
phase_type denied = condition_denied
phase_type expired = condition_expired
phase_type approved = condition_approved
phase_type pending = condition_pending

abbrev pub is_phase_type : String → Bool
is_phase_type t =
    any (λ u. u == t)
      (condition_failed ∷ condition_denied ∷ condition_expired ∷ condition_approved
        ∷ condition_pending ∷ [])

-- A failure comes first; a denial holds for ever, an approval until the key expires.
abbrev pub phase_of : Option Condition → Option ApiKeyApproval → ApiKey → ℕ → Phase
phase_of (some c) a key now = failed
phase_of none none key now = pending
phase_of none (some a) key now =
    if a.spec.approved then (if has_expired key now then expired else approved) else denied

-- Of the five conditions the new list has that of the phase, with status True, and no other; what
-- conditions there are of other types is as before.
pub record ShowsOnly (meta : Meta) (p : Phase) (old new : List Condition) : Type 0 where
  pub shown : holds (meta.find new (phase_type p)) ≡ true
  pub alone : (q : Phase) → q ≢ p → meta.find new (phase_type q) ≡ none
  pub others : (t : String) → is_phase_type t ≡ false → meta.find new t ≡ meta.find old t

module _ (meta : Meta) where
  pub find-remove_all :
      (cs : List Condition) (ts : List String) (t : String)
      → meta.find (remove_all meta cs ts) t
        ≡ (if any (λ u. u == t) ts then none else meta.find cs t)
  unfolding remove_all
  find-remove_all cs [] t = refl
  find-remove_all cs (u ∷ ts) t =
      ground (arith, find-remove_all (meta.remove cs u) ts t, meta.find-remove cs u t)

  holds-merged :
      (now : ℕ) (o : Option Condition) (c : Condition)
      → c.status ≡ yes_true
      → holds (some (merged now o c)) ≡ true
  holds-merged now none c h = ground arith
  holds-merged now (some old) c h = ground arith

-- Two phases have two types, and each type is a phase's.
phase_type_ne : (p q : Phase) → q ≢ p → (phase_type p == phase_type q) ≡ false
phase_type_ne failed failed h = absurd (h refl)
phase_type_ne denied denied h = absurd (h refl)
phase_type_ne expired expired h = absurd (h refl)
phase_type_ne approved approved h = absurd (h refl)
phase_type_ne pending pending h = absurd (h refl)
phase_type_ne _ _ h = refl

phase_type_other : (p : Phase) (t : String) → is_phase_type t ≡ false → (phase_type p == t) ≡ false
phase_type_other failed t h = ground arith
phase_type_other denied t h = ground arith
phase_type_other expired t h = ground arith
phase_type_other approved t h = ground arith
phase_type_other pending t h = ground arith

-- `ts` are the types of the other four phases.
pub record OtherFour (p : Phase) (ts : List String) : Type 0 where
  pub covers : (q : Phase) → q ≢ p → any (λ u. u == phase_type q) ts ≡ true
  pub only : (t : String) → is_phase_type t ≡ false → any (λ u. u == t) ts ≡ false

module _ (meta : Meta) where
  pub settle-ShowsOnly :
      (now : ℕ) (cs : List Condition) (c : Condition) (p : Phase) (ts : List String)
      → c.type ≡ phase_type p
      → c.status ≡ yes_true
      → OtherFour p ts
      → ShowsOnly meta p cs (meta.set now (remove_all meta cs ts) c)
  settle-ShowsOnly now cs c p ts et es four = record {
    shown =
        rw (meta.find-set now (remove_all meta cs ts) c (phase_type p), et, eq_refl (phase_type p))
          (holds-merged meta now _ _ es);
    alone = λ q h.
        rw
          (
            meta.find-set now (remove_all meta cs ts) c (phase_type q),
            et,
            phase_type_ne p q h,
            find-remove_all meta cs ts (phase_type q),
            four.covers q h,
          )
          refl;
    others = λ t h.
        rw
          (
            meta.find-set now (remove_all meta cs ts) c t,
            et,
            phase_type_other p t h,
            find-remove_all meta cs ts t,
            four.only t h,
          )
          refl;
  }

pub other_four :
    (OtherFour failed but_failed)
    × OtherFour denied but_denied
    × OtherFour expired but_expired
    × OtherFour approved but_approved
    × OtherFour pending but_pending
other_four = (
  record {
    covers = elim [ failed ↦ (λ h. absurd (h refl)) | _ ↦ (λ h. refl) ];
    only = λ t h. ground arith;
  },
  record {
    covers = elim [ denied ↦ (λ h. absurd (h refl)) | _ ↦ (λ h. refl) ];
    only = λ t h. ground arith;
  },
  record {
    covers = elim [ expired ↦ (λ h. absurd (h refl)) | _ ↦ (λ h. refl) ];
    only = λ t h. ground arith;
  },
  record {
    covers = elim [ approved ↦ (λ h. absurd (h refl)) | _ ↦ (λ h. refl) ];
    only = λ t h. ground arith;
  },
  record {
    covers = elim [ pending ↦ (λ h. absurd (h refl)) | _ ↦ (λ h. refl) ];
    only = λ t h. ground arith;
  },
)
