-- ===== src/Meta.antt =====
-- metav1.Condition, and the functions of k8s.io/apimachinery/pkg/api/meta that the controllers call
-- on lists of conditions. That package is not part of the repository, so its functions are a
-- parameter, with the laws that its documentation gives.
pub mod Reference
pub mod Sequence
use developer_portal_control.Prelude.{
  ℕ, String, Bool, true, false, Option, none, some, List, [], ◌≡◌, ◌==◌, if◌then◌else◌,
}

-- metav1.ConditionStatus
pub data Status : Type 0 where
  yes_true no_false unknown : Status

abbrev pub is_status_true : Status → Bool
is_status_true yes_true = true
is_status_true _ = false

abbrev pub same_status : Status → Status → Bool
same_status yes_true yes_true = true
same_status no_false no_false = true
same_status unknown unknown = true
same_status _ _ = false

-- A zero `LastTransitionTime` is `none`.
pub record Condition : Type 0 where
  pub type : String
  pub status : Status
  pub observed_generation : ℕ
  pub last_transition_time : Option ℕ
  pub reason : String
  pub message : String

-- The entry that stands in the list after `SetStatusCondition`: all fields are the new ones, but the
-- time of the last transition is kept while the status is.
abbrev pub stamped : ℕ → Condition → Option ℕ
stamped now c = elim c.last_transition_time [ none ↦ some now | some t ↦ some t ]

abbrev pub merged : ℕ → Option Condition → Condition → Condition
merged now none c = record c { last_transition_time = stamped now c }
merged now (some old) c = record c {
  last_transition_time =
      if same_status old.status c.status then old.last_transition_time else stamped now c;
}

pub record Meta : Type 0 where
  -- FindStatusCondition(conditions, type)
  pub find : List Condition → String → Option Condition
  -- SetStatusCondition(&conditions, condition) at a time
  pub set : ℕ → List Condition → Condition → List Condition
  -- RemoveStatusCondition(&conditions, type)
  pub remove : List Condition → String → List Condition
  pub find-nil : (t : String) → find [] t ≡ none
  pub find-set :
      (now : ℕ) (cs : List Condition) (c : Condition) (t : String)
      → find (set now cs c) t
        ≡ (if c.type == t then some (merged now (find cs c.type) c) else find cs t)
  pub find-remove :
      (cs : List Condition) (u t : String)
      → find (remove cs u) t ≡ (if u == t then none else find cs t)
  -- Setting what is there, and removing what is not there, change nothing.
  pub set_stable :
      (now : ℕ) (cs : List Condition) (c : Condition)
      → find cs c.type ≡ some (merged now (find cs c.type) c)
      → set now cs c ≡ cs
  pub remove_stable : (cs : List Condition) (u : String) → find cs u ≡ none → remove cs u ≡ cs
