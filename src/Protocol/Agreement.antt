-- ===== src/Protocol/Agreement.antt =====
-- What a validated request of protocol.rs names.
use gaugemesh.Base.{
  ◌≡◌, ◌↔◌, ◌⊎◌, refl, sym, ◌∙◌, ap, arith, String, Bool, true, false, Option, none, some, inl, inr,
  ok, err, >>=_ok, if◌then◌else◌, if-cases, ◌==◌, string_eq,
}
use text.Mathlib.TextEquality.{eq_iff}
use gaugemesh.Protocol.{
  McpRevision, v2025_11_25, v2026_07_28, unsupported, header_body_disagreement, mcp_2025_11_25,
  mcp_2026_07_28, same_revision, parse, as_str, parse_optional, agree, validate_request,
}

parse_known : (r : McpRevision) → parse (as_str r) ≡ ok r
unfolding parse as_str
parse_known v2025_11_25 = refl
parse_known v2026_07_28 = refl

parse_written : (value : String) (r : McpRevision) → parse value ≡ ok r → value ≡ as_str r
unfolding parse as_str
parse_written value r e =
    elim (if-cases (value == mcp_2025_11_25) (ok v2025_11_25)
      (if value == mcp_2026_07_28 then ok v2026_07_28 else err unsupported) e) [
        | inl (first_one, f) ↦
            let same : v2025_11_25 ≡ r = cc f in
            (eq_iff value mcp_2025_11_25).0 first_one ∙ ap as_str same
        | inr (_, f) ↦
            elim (if-cases (value == mcp_2026_07_28) (ok v2026_07_28) (err unsupported) f) [
              | inl (second_one, g) ↦
                  let same : v2026_07_28 ≡ r = cc g in
                  (eq_iff value mcp_2026_07_28).0 second_one ∙ ap as_str same
              | inr (_, g) ↦ cc
            ]
      ]

-- Parsing accepts exactly the texts that the revisions are written as, each as its revision.
pub parse_iff : (value : String) (r : McpRevision) → (parse value ≡ ok r) ↔ (value ≡ as_str r)
parse_iff value r = (parse_written value r, (λ e. ap parse e ∙ parse_known r))

-- A place of the request names the revision, or is absent.
abbrev pub Names : McpRevision → Option String → Type 0
Names r none = Unit
Names r (some value) = value ≡ as_str r

abbrev pub is_named : Option String → Option String → Bool
is_named none none = false
is_named none (some body) = true
is_named (some header) body = true

same_revision_iff : (a b : McpRevision) → (same_revision a b ≡ true) ↔ (a ≡ b)
same_revision_iff a b = ground arith

parse_optional_written :
    (place : Option String) (o : Option McpRevision) (r : McpRevision)
    → parse_optional place ≡ ok o
    → o ≡ none ⊎ o ≡ some r
    → Names r place
unfolding parse_optional
parse_optional_written none o r e known = tt
parse_optional_written (some value) o r e known =
    let (revision, parsed, e1) = >>=_ok (parse value) _ e in
    let same : some revision ≡ o = cc e1 in
    let right : revision ≡ r = elim known [
      | inl absent ↦ cc (same, absent)
      | inr there ↦ cc (same, there)
    ] in
    parse_written value r (parsed ∙ ap ok right)

agree_written :
    (header body : Option McpRevision) (r : McpRevision)
    → agree header body ≡ ok r
    → (header ≡ none ⊎ header ≡ some r) × (body ≡ none ⊎ body ≡ some r)
unfolding agree
agree_written none none r e = cc
agree_written none (some b) r e = (inl refl, inr (cc e))
agree_written (some a) none r e = (inr (cc e), inl refl)
agree_written (some a) (some b) r e =
    elim (if-cases (same_revision a b) (ok a) (err header_body_disagreement) e) [
      | inl (same, f) ↦
          let equal = (same_revision_iff a b).0 same in
          let right : a ≡ r = cc f in (inr (ap some right), inr (ap some (sym equal ∙ right)))
      | inr (_, f) ↦ cc
    ]

named_by :
    (header body : Option String) (r : McpRevision)
    → validate_request header body ≡ ok r
    → is_named header body ≡ true
unfolding validate_request parse_optional agree
named_by none none r e = cc
named_by none (some body) r e = refl
named_by (some header) body r e = refl

parse_optional_known :
    (value : String) (r : McpRevision)
    → value ≡ as_str r
    → parse_optional (some value) ≡ ok (some r)
unfolding parse_optional
parse_optional_known value r e = rw (e, parse_known r) refl

agree_self : (r : McpRevision) → agree (some r) (some r) ≡ ok r
unfolding agree
agree_self r = rw ((same_revision_iff r r).1 refl) refl

accepted :
    (header body : Option String) (r : McpRevision)
    → Names r header
    → Names r body
    → is_named header body ≡ true
    → validate_request header body ≡ ok r
unfolding validate_request parse_optional agree
accepted none none r h b n = cc
accepted none (some body) r h b n = rw (parse_optional_known body r b) refl
accepted (some header) none r h b n = rw (parse_optional_known header r h) refl
accepted (some header) (some body) r h b n =
    rw (parse_optional_known header r h, parse_optional_known body r b) (agree_self r)

-- A request is accepted for a revision exactly when the header or the body names one, and each of
-- them that is there names this one.
pub validate_request_lem :
    (header body : Option String) (r : McpRevision)
    → (validate_request header body ≡ ok r)
      ↔ (Names r header × Names r body × (is_named header body ≡ true))
unfolding validate_request
validate_request_lem header body r = (
  (λ e.
      let (h, parsed, e1) = >>=_ok (parse_optional header) _ e in
      let (b, parsed_body, e2) = >>=_ok (parse_optional body) _ e1 in
      let (left, right) = agree_written h b r e2 in
      (
        parse_optional_written header h r parsed left,
        parse_optional_written body b r parsed_body right,
        named_by header body r e,
      )),
  (λ (h, b, n). accepted header body r h b n),
)
