-- ===== src/RequestStatus/Agreement.antt =====
-- The comparison of the conditions of a key and of its request, and the copy that follows it.
use mathlib.Core.Path.{subst}
use developer_portal_control.Prelude.{
  String, true, false, none, some, List, [], ◌∷◌, ◌++◌, ◌≡◌, ◌≢◌, refl, sym, ap, ◌↔◌, inl, inr,
  ◌==◌, eq_iff, eq_refl, eq-false, arith, In, any, length, Option-cases, Bool-cases,
}
use developer_portal_control.Prelude.Outcome.{ok}
use developer_portal_control.Meta.{Condition, same_status, Status, yes_true, no_false, unknown}
use developer_portal_control.Meta.Sequence.{HasDistinctTypes}
use developer_portal_control.Api.Key.{ApiKey}
use developer_portal_control.Api.Request.{ApiKeyRequest}
use developer_portal_control.Client.{Client, Call, update_request_status}
use developer_portal_control.RequestStatus.{
  last_of_type, agree, agrees_with, all_agree, conditions_equal, copy_conditions, sync,
}

-- The condition stands in the list, and none of its type stands behind it.
abbrev pub IsLast : List Condition → Condition → Type 0
IsLast cs c =
    (before : List Condition) × (after : List Condition) × (cs ≡ before ++ c ∷ after)
    × ((x : Condition) → In x after → x.type ≢ c.type)

-- Two conditions that differ at most in the time of their transition.
abbrev pub SaysAs : Condition → Condition → Type 0
SaysAs c b =
    (c.type ≡ b.type)
    × (c.status ≡ b.status)
    × (c.reason ≡ b.reason)
    × (c.message ≡ b.message)
    × (c.observed_generation ≡ b.observed_generation)

-- As many conditions, each of which says what the last of its type in the first list says.
abbrev pub Matches : List Condition → List Condition → Type 0
Matches cs bs =
    (length cs ≡ length bs)
    × ((b : Condition) → In b bs → (c : Condition) × IsLast cs c × SaysAs c b)

same_status-eq : (s t : Status) → same_status s t ≡ true → s ≡ t
same_status-eq yes_true yes_true h = refl
same_status-eq yes_true no_false h = cc
same_status-eq yes_true unknown h = cc
same_status-eq no_false yes_true h = cc
same_status-eq no_false no_false h = refl
same_status-eq no_false unknown h = cc
same_status-eq unknown yes_true h = cc
same_status-eq unknown no_false h = cc
same_status-eq unknown unknown h = refl

same_status_refl : (s : Status) → same_status s s ≡ true
same_status_refl yes_true = refl
same_status_refl no_false = refl
same_status_refl unknown = refl

agree-SaysAs : (c b : Condition) → c.type ≡ b.type → agree c b ≡ true → SaysAs c b
agree-SaysAs c b t h = (
  t,
  same_status-eq c.status b.status (ground arith),
  ground (arith, eq_iff c.reason b.reason),
  ground (arith, eq_iff c.message b.message),
  ground arith,
)

SaysAs-agree : (c b : Condition) → SaysAs c b → agree c b ≡ true
SaysAs-agree c b (t, s, r, m, g) =
    let same : same_status c.status b.status ≡ true = rw s (same_status_refl b.status) in
    ground (arith, same, eq_iff c.reason b.reason, eq_iff c.message b.message)

last-none :
    (cs : List Condition) (t : String)
    → ((x : Condition) → In x cs → x.type ≢ t)
    → last_of_type cs t ≡ none
unfolding last_of_type
last-none [] t h = refl
last-none (c ∷ cs) t h =
    ground (arith, last-none cs t (λ x i. h x (inr i)), eq-false c.type t (h c (inl refl)))

none-last :
    (cs : List Condition) (t : String)
    → last_of_type cs t ≡ none
    → (x : Condition) → In x cs
    → x.type ≢ t
unfolding last_of_type
none-last [] t h x i = absurd i
none-last (c ∷ cs) t h x i = elim (Option-cases (last_of_type cs t)) [
  | inr (y, e) ↦ absurd (ground arith)
  | inl e ↦ elim i [
    | inl p ↦ subst (λ (y : Condition). y.type ≢ t) p (λ q. ground (arith, eq_iff c.type t))
    | inr j ↦ none-last cs t e x j
  ]
]

-- The map holds the last condition of each type.
last_of_type-IsLast :
    (cs : List Condition) (t : String) (c : Condition)
    → last_of_type cs t ≡ some c
    → (c.type ≡ t) × IsLast cs c
unfolding last_of_type
last_of_type-IsLast [] t c h = cc
last_of_type-IsLast (b ∷ cs) t c h = elim (Option-cases (last_of_type cs t)) [
  | inr (y, e) ↦
      let (p, (before, after, q, n)) = last_of_type-IsLast cs t c (ground arith) in
      (p, (b ∷ before, after, ap (◌∷◌ b) q, n))
  | inl e ↦ elim (Bool-cases (b.type == t)) [
    | inr f ↦ absurd (ground arith)
    | inl f ↦
        let p : b.type ≡ t = (eq_iff b.type t).0 f in
        subst (λ (y : Condition). (y.type ≡ t) × IsLast (b ∷ cs) y) (ground arith)
          (p, ([], cs, refl, λ x i. rw p (none-last cs t e x i)))
  ]
]

IsLast-last :
    (before after : List Condition) (c : Condition)
    → ((x : Condition) → In x after → x.type ≢ c.type)
    → last_of_type (before ++ c ∷ after) c.type ≡ some c
unfolding last_of_type
IsLast-last [] after c n = ground (arith, last-none after c.type n, eq_refl c.type)
IsLast-last (b ∷ before) after c n = ground (arith, IsLast-last before after c n)

agree_refl : (c : Condition) → agree c c ≡ true
agree_refl c = SaysAs-agree c c (refl, refl, refl, refl, refl)

last_missing :
    (cs : List Condition) (t : String)
    → any (λ e. e.type == t) cs ≡ false
    → last_of_type cs t ≡ none
unfolding last_of_type
last_missing [] t h = refl
last_missing (c ∷ cs) t h = ground (arith, last_missing cs t)

-- With distinct types, the map has every condition of the list.
last-In :
    (cs : List Condition) (c : Condition)
    → HasDistinctTypes cs
    → In c cs
    → last_of_type cs c.type ≡ some c
unfolding last_of_type
last-In [] c h i = absurd i
last-In (b ∷ cs) c (h, hs) (inl e) =
    subst (λ x. last_of_type (b ∷ cs) x.type ≡ some x) e
      (ground (arith, last_missing cs b.type h, eq_refl b.type))
last-In (b ∷ cs) c (h, hs) (inr i) = ground (arith, last-In cs c hs i)

all_agree-In :
    (cs bs : List Condition)
    → ((b : Condition) → In b bs → agrees_with (last_of_type cs b.type) b ≡ true)
    → all_agree cs bs ≡ true
unfolding all_agree
all_agree-In cs [] h = refl
all_agree-In cs (b ∷ bs) h = ground (arith, h b (inl refl), all_agree-In cs bs (λ x i. h x (inr i)))

In-all_agree :
    (cs bs : List Condition) (b : Condition)
    → all_agree cs bs ≡ true
    → In b bs
    → agrees_with (last_of_type cs b.type) b ≡ true
unfolding all_agree
In-all_agree cs [] b h i = absurd i
In-all_agree cs (x ∷ bs) b h (inl e) =
    subst (λ z. agrees_with (last_of_type cs z.type) z ≡ true) e (ground arith)
In-all_agree cs (x ∷ bs) b h (inr i) = In-all_agree cs bs b (ground arith) i

agrees-says :
    (cs : List Condition) (b : Condition)
    → agrees_with (last_of_type cs b.type) b ≡ true
    → (c : Condition) × IsLast cs c × SaysAs c b
agrees-says cs b h = elim (Option-cases (last_of_type cs b.type)) [
  | inl e ↦ absurd (ground arith)
  | inr (c, e) ↦
      let (t, last) = last_of_type-IsLast cs b.type c e in (c, last, agree-SaysAs c b t (rw e at h))
]

says-agrees :
    (cs : List Condition) (b c : Condition)
    → IsLast cs c
    → SaysAs c b
    → agrees_with (last_of_type cs b.type) b ≡ true
says-agrees cs b c (before, after, e, n) says =
    rw (sym says.0, e, IsLast-last before after c n) (SaysAs-agree c b says)

pub copy-eq : (cs : List Condition) → copy_conditions cs ≡ cs
unfolding copy_conditions
copy-eq [] = refl
copy-eq (c ∷ cs) = ap (◌∷◌ c) (copy-eq cs)

-- A list whose types are distinct is equal to its copy.
pub equal-copy :
    (cs : List Condition) → HasDistinctTypes cs → conditions_equal cs (copy_conditions cs) ≡ true
unfolding conditions_equal
equal-copy cs h =
    rw (copy-eq cs)
      (ground (arith, all_agree-In cs cs (λ b i. rw (last-In cs b h i) (agree_refl b))))

-- Two lists count as equal exactly if they have the same length and, for every condition of the
-- second, the last condition of its type in the first has the same status, reason, message and
-- generation. Times of transition are not compared.
pub conditions_equal_iff :
    (cs bs : List Condition) → (conditions_equal cs bs ≡ true) ↔ Matches cs bs
unfolding conditions_equal
conditions_equal_iff cs bs = (
  λ h. (ground arith, λ b i. agrees-says cs b (In-all_agree cs bs b (ground arith) i)),
  λ (e, h). ground (
    arith,
    all_agree-In cs bs (λ b i. let (c, last, says) = h b i in says-agrees cs b c last says),
  ),
)

pub conditions_equal-false :
    (cs bs : List Condition) → conditions_equal cs bs ≡ false → ¬ Matches cs bs
conditions_equal-false cs bs e m = let t = (conditions_equal_iff cs bs).1 m in cc

pub differ : (cs bs : List Condition) → ¬ Matches cs bs → conditions_equal cs bs ≡ false
differ cs bs n = elim (Bool-cases (conditions_equal cs bs)) [
  | inl e ↦ absurd (n ((conditions_equal_iff cs bs).0 e))
  | inr e ↦ e
]

-- Where the key is not being deleted, the types of its conditions are distinct, and the request's
-- conditions do not count as equal to the key's, a sync sends one write, which gives the request
-- the conditions of the key, times of transition included, and changes nothing else of it; and a
-- sync of the request with these conditions succeeds and sends nothing, at any later point.
pub sync_settles :
    (c : Client) (request : ApiKeyRequest) (key : ApiKey) (h later : List Call)
    → key.deletion_timestamp ≡ none
    → ¬ Matches key.status.conditions request.status.conditions
    → HasDistinctTypes key.status.conditions
    → let new = record request { status = record { conditions = key.status.conditions } } in
      ((sync c request key h).1 ≡ update_request_status new ∷ h)
      × (sync c new key later ≡ (ok tt, later))
unfolding sync
sync_settles c request key h later t n d =
    let same : conditions_equal key.status.conditions key.status.conditions ≡ true =
      subst (λ z. conditions_equal key.status.conditions z ≡ true) (copy-eq key.status.conditions)
        (equal-copy key.status.conditions d) in
    (
      rw
          (
            t,
            differ key.status.conditions request.status.conditions n,
            copy-eq key.status.conditions,
          )
          refl,
      rw (t, same) refl,
    )
