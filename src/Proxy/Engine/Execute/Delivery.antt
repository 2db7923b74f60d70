-- ===== src/Proxy/Engine/Execute/Delivery.antt =====
-- internal/proxycore/engine.go: what Execute hands out and what it writes down.
use hermes_security_skills.Base.{
  Bool, Bool-cases, List, Option-cases, Result-cases, [], ap, arith, false, inl, inr, length, ltb,
  ltb→lt, none, refl, some, suc, true, zero, ℕ, ◌++◌, ◌+◌, ◌<◌, ◌∷◌, ◌≡◌, ◌≤◌,
}
use hermes_security_skills.Base.Text.{Text}
use hermes_security_skills.Proxy.Engine.{
  Engine, Evidence, HopResponse, Memory, Request, World, max_redirect_hops, take_bytes,
}
use hermes_security_skills.Proxy.Engine.Execute.{
  ExecuteResult, Outcome, accept, conclude, deliver, done, evidence_of, execute, inline_body,
  result_of, start, write,
}
use hermes_security_skills.Proxy.Engine.Loop.{
  Ending, Progress, loop, loop_denied, loop_failed, loop_out_of_fuel, loop_stopped,
}
use hermes_security_skills.Proxy.Headers.{sanitize_headers}
use hermes_security_skills.Proxy.Headers.Redaction.{IsRedacted, redact_headers-IsRedacted}

take_bytes-prefix :
    (most : ℕ) (full : List ℕ)
    → ((rest : List ℕ) × (full ≡ take_bytes most full ++ rest))
      × (length (take_bytes most full) ≤ most)
unfolding take_bytes
take_bytes-prefix zero full = ((full, refl), omega arith)
take_bytes-prefix (suc most) [] = (([], refl), omega arith)
take_bytes-prefix (suc most) (c ∷ full) =
    let ((rest, same), short) = take_bytes-prefix most full in
    ((rest, ap (λ s. c ∷ s) same), omega (arith, short))

++_nil : (s : List ℕ) → s ≡ s ++ []
++_nil [] = refl
++_nil (c ∷ s) = ap (λ t. c ∷ t) (++_nil s)

not_cut : (most n : ℕ) → ltb most n ≡ false → n ≤ most
not_cut most n h = ground arith

-- An inline body of a full one, with the mark of a body that was cut.
abbrev pub IsInline : ℕ → List ℕ → List ℕ → Bool → Type 0
IsInline most full inline truncated =
    (length inline ≤ most)
    × ((rest : List ℕ) × (full ≡ inline ++ rest))
    × ((truncated ≡ false) → inline ≡ full)
    × ((truncated ≡ true) → most < length full)

inline_body-IsInline :
    (w : World) (most : ℕ) (full : List ℕ)
    → IsInline most full (inline_body w most full).0 (inline_body w most full).1
unfolding inline_body
inline_body-IsInline w most full = elim (Bool-cases (ltb most (length full))) [
  | inl f ↦
      let (prefix, short) = take_bytes-prefix most full in
      rw (f, inline_body) (short, prefix, λ h. cc, λ _. ltb→lt most (length full) f)
  | inr f ↦
      rw (f, inline_body) (not_cut most (length full) f, ([], (++_nil full)), λ _. refl, λ h. cc)
]

module _ (w : World) (e : Engine) where
  -- The evidence of a result: the latest file, which has its number and its hash.
  abbrev pub IsEvidence : Request → ExecuteResult → Memory w → Type 0
  IsEvidence req r m =
      (rec : Evidence) × ((older : List Evidence) × (m.files ≡ rec ∷ older))
      × (w.write_evidence r.evidence_ref rec ≡ some r.evidence_sha256)
      × (m.seq ≡ r.evidence_ref)
      × (rec.case_id ≡ req.case_id)
      × (rec.response_body ≡ r.full_body)
      × IsRedacted rec.request_headers
      × IsRedacted rec.response_headers

  abbrev pub Delivered : Request → Outcome w e → Type 0
  Delivered req (done r m) =
      IsRedacted r.response.headers
      × IsInline e.max_body r.full_body r.response.body r.response.truncated
      × IsEvidence req r m
  Delivered req _ = Unit

  write-eq-some :
      (rec : Evidence) (m : Memory w) (sha : Text)
      → w.write_evidence (m.seq + 1) rec ≡ some sha
      → write w e rec m ≡ (some sha, record m { seq = m.seq + 1; files = rec ∷ m.files })
  unfolding write
  write-eq-some rec m sha g = rw (g, write) refl

  write-eq-none :
      (rec : Evidence) (m : Memory w)
      → w.write_evidence (m.seq + 1) rec ≡ none
      → write w e rec m ≡ (none, record m { seq = m.seq + 1 })
  unfolding write
  write-eq-none rec m g = rw (g, write) refl

  deliver-Delivered :
      (req : Request) (p : Progress w e) (hr : HopResponse) → Delivered req (deliver w e req p hr)
  unfolding deliver result_of evidence_of
  deliver-Delivered req p hr =
      let rec = evidence_of w e req p hr in
      elim (Option-cases (w.write_evidence (p.state.seq + 1) rec)) [
        | inl g ↦ rw (write-eq-none rec p.state g, deliver) tt
        | inr (sha, g) ↦
            rw (write-eq-some rec p.state sha g, deliver)
              (
                redact_headers-IsRedacted hr.header,
                inline_body-IsInline w e.max_body hr.body,
                (
                  rec,
                  (p.state.files, ap (λ x. x.1.files) (write-eq-some rec p.state sha g)),
                  g,
                  ap (λ x. x.1.seq) (write-eq-some rec p.state sha g),
                  refl,
                  refl,
                  redact_headers-IsRedacted (sanitize_headers req.headers),
                  redact_headers-IsRedacted hr.header,
                ),
              )
      ]

  conclude-Delivered : (req : Request) (end : Ending w e) → Delivered req (conclude w e req end)
  unfolding conclude
  conclude-Delivered req (loop_stopped p) = elim (Option-cases p.final) [
    | inl f ↦ rw (f, conclude) tt
    | inr (hr, f) ↦ rw (f, conclude) (deliver-Delivered req p hr)
  ]
  conclude-Delivered req (loop_denied d m) = tt
  conclude-Delivered req (loop_failed m) = tt
  conclude-Delivered req (loop_out_of_fuel m) = tt

  -- Where Execute returns a result, its headers are redacted; its inline body is the beginning of the
  -- full body, within the limit, and all of it if it is not marked as truncated; and the latest
  -- evidence file has the number and the hash that the result names, the case, the full body, and the
  -- headers of the request and of the response redacted.
  pub execute-Delivered : (req : Request) (m : Memory w) → Delivered req (execute w e req m)
  unfolding execute
  execute-Delivered req m = elim (Result-cases (accept w req)) [
    | inr (why, f) ↦ rw (f, execute) tt
    | inl (first, f) ↦
        rw (f, execute)
          (conclude-Delivered req (loop w e (suc max_redirect_hops) 0 (start w e first m)))
  ]
