-- ===== src/Application/Dto/Laws.antt =====
-- What `send` accepts is what the worker accepts.
use notifyfork.Common.{
  ℕ, ◌≤◌, String, ◌≡◌, refl, false, ◌&&◌, Option, arith, ◌==◌, Bool-cases, inl, inr,
}
use notifyfork.Python.Dict.{Dict}
use notifyfork.Python.Result.{ok}
use notifyfork.Python.Text.{strip, lstrip, rstrip, is_space}
use notifyfork.Python.Int.{ℤ, pos, negsuc}
use notifyfork.Application.Dto.{Payload, SendNotificationDto, make_dto, send, given_context}

-- A text that does not begin with white space.
abbrev StartsVisible : String → Type 0
StartsVisible String.[] = Unit
StartsVisible (String.◌∷◌ c s) = is_space c ≡ false

lstrip_visible : (s : String) → StartsVisible (lstrip s)
unfolding lstrip
lstrip_visible String.[] = tt
lstrip_visible (String.◌∷◌ c s) = elim (Bool-cases (is_space c)) [
  | inl blank ↦ rw blank (lstrip_visible s)
  | inr visible ↦ rw visible visible
]

lstrip_of_visible : (s : String) → StartsVisible s → lstrip s ≡ s
unfolding lstrip
lstrip_of_visible String.[] h = refl
lstrip_of_visible (String.◌∷◌ c s) h = rw h

rstrip_visible : (s : String) → StartsVisible s → StartsVisible (rstrip s)
unfolding rstrip
rstrip_visible String.[] h = tt
rstrip_visible (String.◌∷◌ c s) h = rw h h

rstrip_idem : (s : String) → rstrip (rstrip s) ≡ rstrip s
unfolding rstrip
rstrip_idem String.[] = refl
rstrip_idem (String.◌∷◌ c s) = elim (Bool-cases (is_space c && (rstrip s == ""))) [
  | inl blank ↦ rw blank
  | inr kept ↦ rw kept (rw (rstrip, rstrip_idem s, kept))
]

strip_idem : (s : String) → strip (strip s) ≡ strip s
unfolding strip
strip_idem s =
    rw (lstrip_of_visible (rstrip (lstrip s)) (rstrip_visible (lstrip s) (lstrip_visible s)))
      (rstrip_idem (lstrip s))

module _ {V : Type 0} where
  -- What the worker makes of a payload that `send` built.
  abbrev pub dto_of : Payload V → ℕ → SendNotificationDto V
  dto_of p n = record {
    recipient = p.recipient;
    channel = p.channel;
    notification_type = p.notification_type;
    template_id = p.template_id;
    context = given_context p.context;
    max_attempts = n;
  }

  -- A payload that `send` accepts carries the stripped recipient and a number of attempts from 1
  -- to 5, and the worker's validation of it succeeds and changes nothing.
  pub make_dto-send :
      (recipient channel template_id notification_type : String) (context : Option (Dict V))
      (max_attempts : ℤ) (p : Payload V)
      → send recipient channel template_id notification_type context max_attempts ≡ ok p
      → (n : ℕ) × (1 ≤ n)
        × (n ≤ 5)
        × (max_attempts ≡ pos n)
        × (p.recipient ≡ strip recipient)
        × (make_dto p ≡ ok (dto_of p n))
  unfolding send make_dto
  make_dto-send recipient channel template_id notification_type context (negsuc n) p h =
      ground arith
  make_dto-send recipient channel template_id notification_type context (pos n) p h =
      (n, ground arith, ground arith, refl, ground arith, ground (arith, strip_idem recipient))
