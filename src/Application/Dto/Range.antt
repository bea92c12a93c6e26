-- ===== src/Application/Dto/Range.antt =====
-- The number of attempts that the validation in dtos/send_notification_dto.py lets through.
use notifyfork.Common.{ℕ, ◌≤◌, ◌≡◌, some, arith, Option-cases, inl, inr}
use notifyfork.Python.Result.{ok, >>=-eq-ok}
use notifyfork.Python.Int.{ℤ, pos, negsuc}
use notifyfork.Application.Dto.{
  Payload, SendNotificationDto, recipient_not_empty, attempts_in_range, valid_attempts,
  given_attempts, make_dto,
}

abbrev pub InRange : ℕ → Type 0
InRange n = (1 ≤ n) × (n ≤ 5)

attempts_in_range-InRange : (v : ℤ) (n : ℕ) → attempts_in_range v ≡ some n → InRange n
unfolding attempts_in_range
attempts_in_range-InRange (pos m) n e = (ground arith, ground arith)
attempts_in_range-InRange (negsuc m) n e = cc (e)

module _ {V : Type 0} where
  pub make_dto-InRange :
      (p : Payload V) (dto : SendNotificationDto V) → make_dto p ≡ ok dto → InRange dto.max_attempts
  unfolding make_dto valid_attempts
  make_dto-InRange p dto h =
      let (recipient, stripped, e1) = >>=-eq-ok (recipient_not_empty p.recipient) _ h in
      let (n, valid, e2) = >>=-eq-ok (valid_attempts (given_attempts p.max_attempts)) _ e1 in
      let same : n ≡ dto.max_attempts = cc (e2) in
      elim (Option-cases (attempts_in_range (given_attempts p.max_attempts))) [
        | inl out ↦ cc (rw out at valid)
        | inr (m, inside) ↦
            let found : m ≡ n = cc (rw inside at valid) in
            rw (← same, ← found)
              (attempts_in_range-InRange (given_attempts p.max_attempts) m inside)
      ]
