-- ===== src/Webhooks/Resend/Signature.antt =====
-- Which Svix signatures are taken.
use notifyfork.Common.{
  String, ◌≡◌, ◌↔◌, ap, true, false, some, List, [], ◌∷◌, ◌++◌, All, ◌==◌, eq_iff, eq_refl,
  Bool-cases, inl, inr,
}
use notifyfork.Python.Dict.{get_or}
use notifyfork.Python.Result.{Result, ok}
use notifyfork.Python.Text.{words, removeprefix, is_ascii}
use notifyfork.Webhooks.Answer.{filled}
use notifyfork.Webhooks.Resend.{
  Request, after_commas, compare_digest, any_match, matches_digest, signed_by_resend,
}
use Prim.Native.String

-- The expected text is among the candidates, and all that come before it are ASCII.
pub record Found (expected : String) (candidates : List String) : Type 0 where
  pub before : List String
  pub after : List String
  pub order : candidates ≡ before ++ expected ∷ after
  pub ascii_before : All (λ c. is_ascii c ≡ true) before
  pub ascii : is_ascii expected ≡ true

any_match_sound :
    (expected : String) (candidates : List String)
    → any_match expected candidates ≡ ok true
    → Found expected candidates
unfolding any_match compare_digest
any_match_sound expected [] h = cc
any_match_sound expected (c ∷ cs) h = elim (Bool-cases (is_ascii c)) [
  | inr odd ↦ cc (rw (odd, any_match) at h)
  | inl plain ↦ elim (Bool-cases (expected == c)) [
    | inl same ↦
        let here : expected ≡ c = (eq_iff expected c).0 same in
        record {
          before = [];
          after = cs;
          order = rw here;
          ascii_before = tt;
          ascii = rw here plain;
        }
    | inr other ↦
        let later = any_match_sound expected cs (rw (plain, other, any_match) at h) in
        record {
          before = c ∷ later.before;
          after = later.after;
          order = ap (λ l. c ∷ l) later.order;
          ascii_before = (plain, later.ascii_before);
          ascii = later.ascii;
        }
  ]
]

any_match_complete :
    (expected : String) (before after : List String)
    → All (λ c. is_ascii c ≡ true) before
    → is_ascii expected ≡ true
    → any_match expected (before ++ expected ∷ after) ≡ ok true
unfolding any_match compare_digest
any_match_complete expected [] after h plain = rw (plain, eq_refl expected)
any_match_complete expected (c ∷ before) after (p, h) plain = elim (Bool-cases (expected == c)) [
  | inl same ↦ rw (p, same)
  | inr other ↦ rw (p, other) (any_match_complete expected before after h plain)
]

module _ {Key : Type 0} (b64decode : String → Result Key) (digest : Key → String → String) where
  -- A request with a secret that decodes, the three headers and a text for its body.
  pub record Carries (secret : String) (request : Request) (id timestamp signature content : String)
      (key : Key) : Type 0 where
    pub secret_set : (secret == "") ≡ false
    pub id_given : request.svix_id ≡ some id
    pub timestamp_given : request.svix_timestamp ≡ some timestamp
    pub signature_given : request.svix_signature ≡ some signature
    pub id_filled : (id == "") ≡ false
    pub timestamp_filled : (timestamp == "") ≡ false
    pub signature_filled : (signature == "") ≡ false
    pub decoded : b64decode (removeprefix "whsec_" secret) ≡ ok key
    pub content_read : request.body ≡ ok content

  abbrev pub signed_content : String → String → String → String
  signed_content id timestamp content =
      String.◌++◌ id (String.◌++◌ "." (String.◌++◌ timestamp (String.◌++◌ "." content)))

  -- With a secret and the three headers a request is taken as signed exactly when the digest of its
  -- id, timestamp and body is among the signatures of the header, wherever it stands, and no text
  -- that is not ASCII stands before it.
  pub signed_by_resend_iff :
      (secret id timestamp signature content : String) (key : Key) (request : Request)
      → Carries secret request id timestamp signature content key
      → (signed_by_resend b64decode digest (some secret) request ≡ ok true)
        ↔ Found (digest key (signed_content id timestamp content)) (after_commas (words signature))
  unfolding signed_by_resend matches_digest filled get_or
  signed_by_resend_iff secret id timestamp signature content key request h =
      rw
        (
          h.secret_set, h.id_given, h.timestamp_given, h.signature_given, h.id_filled,
          h.timestamp_filled, h.signature_filled, h.decoded, h.content_read,
        )
        (
          any_match_sound _ _,
          λ f. rw f.order (any_match_complete _ f.before f.after f.ascii_before f.ascii),
        )
