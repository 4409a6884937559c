-- ===== src/Redact/Tests.antt =====
-- Runs of internal/core/redact/redact.go on small texts, and the theorem at them.
use reeve.Prelude.{◌≡◌, refl, false, [], ◌∷◌, Bytes, codes, arith}
use reeve.Redact.{
  Redactor, Rule, contains, add_secret, redact, redact_secrets, redact_rules, replace_from,
  replace_matches, sorted_secrets,
}
use reeve.Redact.Leak.{redact-add_secret}

-- A rule that matches the two bytes behind the first.
abbrev second_two : Rule
second_two s = (1, 2) ∷ []

abbrev fresh : Redactor
fresh = record {
  rules = second_two ∷ [];
  replacement = codes "[redacted]";
  secrets = codes "token-12" ∷ [];
}

-- The longer secret goes first.
longest_first :
    sorted_secrets (codes "token-12" ∷ codes "token-123" ∷ [])
    ≡ codes "token-123" ∷ codes "token-12" ∷ []
unfolding sorted_secrets
longest_first = refl

markers :
    redact (record fresh { rules = [] }) (codes "a[secret]b<secret>token-123")
    ≡ codes "a[redacted]b[redacted][redacted]3"
unfolding redact redact_secrets redact_rules sorted_secrets replace_from
markers = refl

ruled : redact fresh (codes "abcd") ≡ codes "a[redacted]d"
unfolding redact redact_secrets redact_rules replace_matches sorted_secrets replace_from
ruled = refl

abbrev api_key : Bytes
api_key = codes "AKIA-123"

redact-add_secret_example :
    contains api_key (redact (add_secret api_key fresh) (codes "id=AKIA-123")) ≡ false
redact-add_secret_example =
    redact-add_secret b'[' (codes "redacted") b']' api_key fresh (codes "id=AKIA-123") refl
      (record { no_first = refl; no_last = refl; no_part = refl }) (omega arith)
