-- ===== src/Service/Laws.antt =====
-- When the service runs a query, and when it closes a connection.
use zpq.Common.{
  ℕ, ◌≤◌, ◌≡◌, ◌≢◌, refl, sym, ap, subst, ◌∙◌, true, false, Option, none, some, inl, inr, arith,
}
use zpq.Common.Tests.{ltb, if◌then◌else◌, Bool-cases, Option-cases}
use zpq.Service.{
  Header, Ran, answered, closed_context, broke, Response, max_body, length_of, refuse, answer,
  do_post, status_of,
}
use Prim.Native.String.{String}
use text.Mathlib.Text.{◌==◌ as str_eq, starts_with}
use text.Mathlib.TextBridge.{IsPrefix}
use text.Mathlib.TextEquality.{starts_with_iff}

-- An error document is a text that goes on from these nine characters.
abbrev pub IsErrorDocument : String → Type 0
IsErrorDocument = IsPrefix "{\"error\""

-- What is promised of an answer, for the library's answers to bodies of each length.
pub record Proper (run : ℕ → Ran) (r : Response) : Type 0 where
  -- A body that is left unread ends its connection, so that its bytes are not taken for a request.
  pub unread : r.read ≡ none → (r.closes ≡ true) × (r.ran ≡ false)
  -- What is read is no more than the limit, and the library answers it.
  pub bounded : (n : ℕ) → r.read ≡ some n → (n ≤ max_body) × (r.ran ≡ true)
  -- 200 is the status of a text of the library that is no error document, and of nothing else.
  pub good :
      r.status ≡ 200
      → (n : ℕ) × (text : String) × (r.read ≡ some n)
        × (run n ≡ answered text)
        × (¬ IsErrorDocument text)
  -- Every text that the library answers is told by its status.
  pub told :
      (n : ℕ) (text : String)
      → r.read ≡ some n
      → run n ≡ answered text
      → (IsErrorDocument text → r.status ≡ 400) × ((¬ IsErrorDocument text) → r.status ≡ 200)

status_of-error : (text : String) → IsErrorDocument text → status_of text ≡ 400
unfolding status_of
status_of-error text h = rw ((starts_with_iff text "{\"error\"").1 h)

status_of-good : (text : String) → ¬ IsErrorDocument text → status_of text ≡ 200
unfolding status_of
status_of-good text h = elim (Bool-cases (starts_with text "{\"error\"")) [
  | inl e ↦ absurd (h ((starts_with_iff text "{\"error\"").0 e))
  | inr e ↦ rw e
]

status_of-200 : (text : String) → status_of text ≡ 200 → ¬ IsErrorDocument text
status_of-200 text h e = omega (arith, h, status_of-error text e)

same_length : {n m : ℕ} → some n ≡ some m → n ≡ m
same_length p = cc

not_closed : {t : String} → closed_context ≡ answered t → ⊥
not_closed p = cc

not_broke : {t : String} → broke ≡ answered t → ⊥
not_broke p = cc

answered-injective : {s t : String} → answered s ≡ answered t → s ≡ t
answered-injective p = cc

answer-Proper :
    (run : ℕ → Ran) (n : ℕ) (ran : Ran) → run n ≡ ran → n ≤ max_body → Proper run (answer n ran)
unfolding answer
answer-Proper run n (answered text) e h = record {
  unread = λ p. cc;
  bounded = λ m p. (omega (arith, same_length p, h), refl);
  good = λ p. (n, text, refl, e, status_of-200 text p);
  told = λ m other p q.
      let same : text ≡ other = answered-injective (sym e ∙ ap run (same_length p) ∙ q) in
      subst
        (λ t.
          (IsErrorDocument t → status_of text ≡ 400)
          × ((¬ IsErrorDocument t) → status_of text ≡ 200))
        same (status_of-error text, status_of-good text);
}
answer-Proper run n closed_context e h = record {
  unread = λ p. cc;
  bounded = λ m p. (omega (arith, same_length p, h), refl);
  good = λ p. absurd (omega (arith, p));
  told = λ m other p q. absurd (not_closed (sym e ∙ ap run (same_length p) ∙ q));
}
answer-Proper run n broke e h = record {
  unread = λ p. cc;
  bounded = λ m p. (omega (arith, same_length p, h), refl);
  good = λ p. absurd (omega (arith, p));
  told = λ m other p q. absurd (not_broke (sym e ∙ ap run (same_length p) ∙ q));
}

refuse-Proper : (run : ℕ → Ran) (status : ℕ) → status ≢ 200 → Proper run (refuse status)
refuse-Proper run status h = record {
  unread = λ p. (refl, refl);
  bounded = λ m p. cc;
  good = λ p. absurd (h p);
  told = λ n text p q. absurd (unread p);
}
  where
    unread : {n : ℕ} → none ≡ some n → ⊥
    unread p = cc

-- Whatever a request's path and header and the library's answers, do_post leaves a body unread only if it
-- closes the connection and does not call the library, reads no more than MAX_BODY bytes and then calls
-- it. It answers 200 only with a text of the library that does not begin with `{"error"`; and whatever text
-- the library answers to a body that is read, the status is 400 where the text begins so and 200 otherwise.
pub do_post-Proper :
    (path : String) (header : Option Header) (run : ℕ → Ran) → Proper run (do_post path header run)
unfolding do_post
do_post-Proper path header run = elim (Bool-cases (str_eq path "/query")) [
  | inr e ↦ rw e (refuse-Proper run 404 (λ h. omega (arith, h)))
  | inl e ↦ rw e (by_header header)
]
  where
    by_length : (n : ℕ) → Proper run (if ltb max_body n then refuse 413 else answer n (run n))
    by_length n = elim (Bool-cases (ltb max_body n)) [
      | inl e ↦ rw e (refuse-Proper run 413 (λ h. omega (arith, h)))
      | inr e ↦ rw e (answer-Proper run n (run n) refl (ground (arith, e)))
    ]

    by_header :
        (header : Option Header)
        → Proper run (elim header [
          | none ↦ refuse 411
          | some h ↦ elim (length_of h) [
            | none ↦ refuse 400
            | some n ↦ if ltb max_body n then refuse 413 else answer n (run n)
          ]
        ])
    by_header none = refuse-Proper run 411 (λ h. omega (arith, h))
    by_header (some header) = elim (Option-cases (length_of header)) [
      | inl e ↦ rw e (refuse-Proper run 400 (λ h. omega (arith, h)))
      | inr (n, e) ↦ rw e (by_length n)
    ]
