-- ===== src/Application/UseCase/Outcome.antt =====
-- What the loop over the candidates does to the outside, and what it reports.
use notifyfork.Common.{
  ◌≢◌, All, All-of-append, String, ◌≡◌, ◌⊎◌, refl, sym, ap, ◌∙◌, Option, List, [], ◌∷◌, ◌++◌, inl,
  inr,
}
use notifyfork.Python.Dict.{Dict}
use notifyfork.Python.Result.{Error, Result, ok, err}
use notifyfork.Domain.Template.{NotificationTemplate}
use notifyfork.Application.Interfaces.Provider.{Attempt, Provider}
use notifyfork.Application.UseCase.{
  Verdict, accepted, refused, Reading, delivery, failure, broken, read_attempt, try_candidates,
}

-- What the attempt gave is a ProviderResult or has as much of one as the loop reads, or it raised.
abbrev pub HasAttributes : Attempt → Type 0
HasAttributes a = (e : Error) → read_attempt a ≢ broken e

module _ {V X : Type 0} (recipient : String) (template : NotificationTemplate)
    (context : Dict V) where
  abbrev pub attempt : Provider V X → X → Attempt × X
  attempt p x = p.send_with_template recipient template context x

  abbrev pub Refuses : Provider V X → X → Type 0
  Refuses p x = (reason : String) × (read_attempt (attempt p x).0 ≡ failure reason)

  -- The providers are called in this order, from `x` to `x'`, and none delivers.
  abbrev pub AllRefuse : List (Provider V X) → X → X → Type 0
  AllRefuse [] x x' = x ≡ x'
  AllRefuse (p ∷ ps) x x' = Refuses p x × AllRefuse ps (attempt p x).1 x'

  -- One provider delivered: those before it refused, and those after it were not called, since the
  -- outside is left as the call of this one left it.
  pub record DeliveredBy (ps : List (Provider V X)) (x : X) (name : String)
      (message_id : Option String) (x' : X) : Type 0 where
    pub before : List (Provider V X)
    pub provider : Provider V X
    pub later : List (Provider V X)
    pub between : X
    pub order : ps ≡ before ++ provider ∷ later
    pub refusals : AllRefuse before x between
    pub delivers : read_attempt (attempt provider between).0 ≡ delivery message_id
    pub left : (attempt provider between).1 ≡ x'
    pub named : provider.name ≡ name

  -- All were called and refused, and the error is that of the last one.
  pub record RefusedBy (ps : List (Provider V X)) (x : X) (error first : String) (x' : X)
      : Type 0 where
    pub refusals : AllRefuse ps x x'
    pub reason :
        ((ps ≡ []) × (error ≡ first))
        ⊎ ((before : List (Provider V X)) × (last : Provider V X) × (between : X) × (ps
              ≡ before ++ last ∷ [])
            × AllRefuse before x between
            × (read_attempt (attempt last between).0 ≡ failure error))

  -- One provider returned a result that lacks an attribute, after refusals of all before it; the
  -- loop raised, and those after it were not called.
  pub record BrokenBy (ps : List (Provider V X)) (x : X) (e : Error) (x' : X) : Type 0 where
    pub before : List (Provider V X)
    pub provider : Provider V X
    pub later : List (Provider V X)
    pub between : X
    pub order : ps ≡ before ++ provider ∷ later
    pub refusals : AllRefuse before x between
    pub breaks : read_attempt (attempt provider between).0 ≡ broken e
    pub left : (attempt provider between).1 ≡ x'

  abbrev pub Explains : List (Provider V X) → X → String → Result Verdict × X → Type 0
  Explains ps x first (ok (accepted name message_id), x') = DeliveredBy ps x name message_id x'
  Explains ps x first (ok (refused error), x') = RefusedBy ps x error first x'
  Explains ps x first (err e, x') = BrokenBy ps x e x'

  Explains-cons :
      (p : Provider V X) (ps : List (Provider V X)) (x : X) (first reason : String)
      (v : Result Verdict × X)
      → read_attempt (attempt p x).0 ≡ failure reason
      → Explains ps (attempt p x).1 reason v
      → Explains (p ∷ ps) x first v
  Explains-cons p ps x first reason (err e, x') failed h = record {
    before = p ∷ h.before;
    provider = h.provider;
    later = h.later;
    between = h.between;
    order = ap (λ t. p ∷ t) h.order;
    refusals = ((reason, failed), h.refusals);
    breaks = h.breaks;
    left = h.left;
  }
  Explains-cons p ps x first reason (ok (accepted name message_id), x') failed h = record {
    before = p ∷ h.before;
    provider = h.provider;
    later = h.later;
    between = h.between;
    order = ap (λ t. p ∷ t) h.order;
    refusals = ((reason, failed), h.refusals);
    delivers = h.delivers;
    left = h.left;
    named = h.named;
  }
  Explains-cons p ps x first reason (ok (refused error), x') failed h = record {
    refusals = ((reason, failed), h.refusals);
    reason = elim h.reason [
      | inl (none_left, same) ↦
          inr ([], p, x, ap (λ t. p ∷ t) none_left, refl, failed ∙ ap failure (sym same))
      | inr (before, last, between, order, refusals, why) ↦
          inr (p ∷ before, last, between, ap (λ t. p ∷ t) order, ((reason, failed), refusals), why)
    ];
  }

  Explains-head :
      (p : Provider V X) (ps : List (Provider V X)) (x : X) (first : String)
      (message_id : Option String)
      → read_attempt (attempt p x).0 ≡ delivery message_id
      → Explains (p ∷ ps) x first (ok (accepted p.name message_id), (attempt p x).1)
  Explains-head p ps x first message_id done = record {
    before = [];
    provider = p;
    later = ps;
    between = x;
    order = refl;
    refusals = refl;
    delivers = done;
    left = refl;
    named = refl;
  }

  Explains-broken :
      (p : Provider V X) (ps : List (Provider V X)) (x : X) (first : String) (e : Error)
      → read_attempt (attempt p x).0 ≡ broken e
      → Explains (p ∷ ps) x first (err e, (attempt p x).1)
  Explains-broken p ps x first e odd = record {
    before = [];
    provider = p;
    later = ps;
    between = x;
    order = refl;
    refusals = refl;
    breaks = odd;
    left = refl;
  }

  -- How the loop ends explains what was called: the first provider that delivers, after refusals of
  -- all before it and with no call of those after it; or all of them, and the error is that of the
  -- last; or, where the loop raises, one whose result lacks an attribute, after refusals of all
  -- before it and with no call of those after it.
  pub try_candidates-Explains :
      (first : String) (ps : List (Provider V X)) (x : X)
      → Explains ps x first (try_candidates recipient template context first ps x)
  unfolding try_candidates
  try_candidates-Explains first [] x = record { refusals = refl; reason = inl (refl, refl) }
  try_candidates-Explains first (p ∷ ps) x =
      by_reading (read_attempt (attempt p x).0) refl
        (λ reason. try_candidates-Explains reason ps (attempt p x).1)
    where
      by_reading :
          (r : Reading)
          → read_attempt (attempt p x).0 ≡ r
          → ((reason : String)
              → Explains ps
                  (attempt p x).1
                  reason
                  (try_candidates recipient template context reason ps (attempt p x).1))
          → Explains (p ∷ ps) x first (try_candidates recipient template context first (p ∷ ps) x)
      by_reading (delivery message_id) same ih =
          rw (same, try_candidates) (Explains-head p ps x first message_id same)
      by_reading (broken e) same ih =
          rw (same, try_candidates) (Explains-broken p ps x first e same)
      by_reading (failure reason) same ih =
          rw (same, try_candidates) (Explains-cons p ps x first reason _ same (ih reason))

  -- The provider's results have the attributes that the loop reads, whatever the outside is like.
  abbrev pub IsWhole : Provider V X → Type 0
  IsWhole p = (x : X) → HasAttributes (attempt p x).0

  not-BrokenBy :
      (ps : List (Provider V X)) (x x' : X) (e : Error) → All IsWhole ps → ¬ BrokenBy ps x e x'
  not-BrokenBy ps x x' e whole b =
      let split : All IsWhole b.before × All IsWhole (b.provider ∷ b.later) =
        All-of-append IsWhole b.before (b.provider ∷ b.later) (rw b.order at whole) in
      split.1.0 b.between e b.breaks

  loop_of_Explains :
      (ps : List (Provider V X)) (x : X) (first : String) (r : Result Verdict × X)
      → All IsWhole ps
      → Explains ps x first r
      → (v : Verdict) × (x' : X) × (r ≡ (ok v, x'))
  loop_of_Explains ps x first (ok v, x') whole why = (v, x', refl)
  loop_of_Explains ps x first (err e, x') whole why = absurd (not-BrokenBy ps x x' e whole why)

  -- With such providers the loop does not raise.
  pub loop_returns :
      (first : String) (ps : List (Provider V X)) (x : X)
      → All IsWhole ps
      → (v : Verdict) × (x' : X) × (try_candidates recipient template context first ps x
          ≡ (ok v, x'))
  loop_returns first ps x whole =
      loop_of_Explains ps x first (try_candidates recipient template context first ps x) whole
        (try_candidates-Explains first ps x)
