-- ===== src/Witnesses/Codec.antt =====
-- A log format that can be read back, in place of the JSON of serde: each text is led by its length.
use mathlib.Core.List.{append_assoc, reverse-append, reverse-cons, reverse-reverse}
use asmodeus.Telemetry.Audit.{AuditRecord, Measurements, RunEvidence}
use asmodeus.AuditStore.Log.{is_one_line}
use asmodeus.Prelude.{
  map, ◌∙◌, ◌+◌, ◌-◌, ℕ, zero, suc, ◌≡◌, refl, ap, arith, Bool, true, false, Option, none, some, [],
  ◌∷◌, ◌++◌, Text, take, drop, length, Result, ok, err, trim, trim_start, is_space, reverse, nat_eq,
}
use asmodeus.Prelude.Opt.{◌>>=◌}

pub record Codec (A : Type 0) : Type 0 where
  pub enc : A → Text
  pub dec : Text → Option (A × Text)
  pub law : (a : A) (rest : Text) → dec (enc a ++ rest) ≡ some (a, rest)

pub take-length : (t rest : Text) → take (length t) (t ++ rest) ≡ t
take-length [] rest = refl
take-length (c ∷ t) rest = ap (◌∷◌ c) (take-length t rest)

pub drop-length : (t rest : Text) → drop (length t) (t ++ rest) ≡ rest
drop-length [] rest = refl
drop-length (c ∷ t) rest = drop-length t rest

abbrev dec_text : Text → Option (Text × Text)
dec_text [] = none
dec_text (n ∷ s) = some (take n s, drop n s)

abbrev text_codec : Codec Text
text_codec = record {
  enc = λ t. length t ∷ t;
  dec = dec_text;
  law = λ t rest. rw (take-length t rest, drop-length t rest) refl;
}

abbrev dec_nat : Text → Option (ℕ × Text)
dec_nat [] = none
dec_nat (n ∷ s) = some (n, s)

abbrev nat_codec : Codec ℕ
nat_codec = record { enc = λ n. n ∷ []; dec = dec_nat; law = λ n rest. refl }

abbrev enc_bool : Bool → Text
enc_bool true = 1 ∷ []
enc_bool false = 0 ∷ []

abbrev dec_bool : Text → Option (Bool × Text)
dec_bool [] = none
dec_bool (zero ∷ s) = some (false, s)
dec_bool (suc n ∷ s) = some (true, s)

pub bool_law : (b : Bool) (rest : Text) → dec_bool (enc_bool b ++ rest) ≡ some (b, rest)
bool_law true rest = refl
bool_law false rest = refl

abbrev bool_codec : Codec Bool
bool_codec = record { enc = enc_bool; dec = dec_bool; law = bool_law }

module _ {A B : Type 0} (c : Codec A) (d : Codec B) where
  abbrev pair_codec : Codec (A × B)
  pair_codec = record {
    enc = λ p. c.enc p.0 ++ d.enc p.1;
    dec = λ s. c.dec s >>= λ a. d.dec a.1 >>= λ b. some ((a.0, b.0), b.1);
    law = λ p rest.
        rw
          (append_assoc (c.enc p.0) (d.enc p.1) rest, c.law p.0 (d.enc p.1 ++ rest), d.law p.1 rest)
          refl;
  }

module _ {A : Type 0} (c : Codec A) where
  abbrev enc_option : Option A → Text
  enc_option none = 0 ∷ []
  enc_option (some a) = 1 ∷ c.enc a

  abbrev dec_option : Text → Option (Option A × Text)
  dec_option [] = none
  dec_option (zero ∷ s) = some (none, s)
  dec_option (suc n ∷ s) = c.dec s >>= λ a. some (some a.0, a.1)

  pub option_law : (o : Option A) (rest : Text) → dec_option (enc_option o ++ rest) ≡ some (o, rest)
  option_law none rest = refl
  option_law (some a) rest = rw (c.law a rest) refl

  abbrev option_codec : Codec (Option A)
  option_codec = record { enc = enc_option; dec = dec_option; law = option_law }

module _ {A B : Type 0} (make : A → B) (parts : B → A) (whole : (b : B) → make (parts b) ≡ b)
    (c : Codec A) where
  abbrev record_codec : Codec B
  record_codec = record {
    enc = λ b. c.enc (parts b);
    dec = λ s. c.dec s >>= λ a. some (make a.0, a.1);
    law = λ b rest. rw (c.law (parts b) rest, whole b) refl;
  }

abbrev MeasurementsParts : Type 0
MeasurementsParts = (ℕ × (ℕ × Bool))

abbrev measurements_codec : Codec Measurements
measurements_codec =
    record_codec
      (λ (p : MeasurementsParts). record {
        mttd_ms = p.0;
        mttr_ms = p.1.0;
        blue_team_detected = p.1.1;
      })
      (λ r. (r.mttd_ms, (r.mttr_ms, r.blue_team_detected))) (λ r. refl)
      (pair_codec nat_codec (pair_codec nat_codec bool_codec))

abbrev EvidenceParts : Type 0
EvidenceParts = (Text × (Bool × (Bool × (Bool × (Option Text)))))

abbrev evidence_codec : Codec RunEvidence
evidence_codec =
    record_codec
      (λ (p : EvidenceParts). record {
        execution_mode = p.0;
        feedback_received = p.1.0;
        contained = p.1.1.0;
        cleanup_confirmed = p.1.1.1.0;
        failure_reason = p.1.1.1.1;
      })
      (λ r. (
        r.execution_mode,
        (r.feedback_received, (r.contained, (r.cleanup_confirmed, r.failure_reason))),
      ))
      (λ r. refl)
      (pair_codec text_codec (
        pair_codec bool_codec
          (pair_codec bool_codec (pair_codec bool_codec (option_codec text_codec)))))

abbrev AuditParts : Type 0
AuditParts =
    (Text
      × (Text
          × (Text
              × (Text
                  × (Text
                      × (Text
                          × (Text
                              × (Text
                                  × (Text
                                      × (Text
                                          × (Text
                                              × (Measurements
                                                  × (Text
                                                      × (Text
                                                          × (Text
                                                            × (Text
                                                            × (Text
                                                            × (Text
                                                            × (Option RunEvidence)))))))))))))))))))

abbrev audit_codec : Codec AuditRecord
audit_codec =
    record_codec
      (λ (p : AuditParts). record {
        run_id = p.0;
        scenario_id = p.1.0;
        scenario_name = p.1.1.0;
        category = p.1.1.1.0;
        mitre_technique = p.1.1.1.1.0;
        mitre_tactic = p.1.1.1.1.1.0;
        severity = p.1.1.1.1.1.1.0;
        tag = p.1.1.1.1.1.1.1.0;
        initiator = p.1.1.1.1.1.1.1.1.0;
        runner_id = p.1.1.1.1.1.1.1.1.1.0;
        status = p.1.1.1.1.1.1.1.1.1.1.0;
        measurements = p.1.1.1.1.1.1.1.1.1.1.1.0;
        detection_source = p.1.1.1.1.1.1.1.1.1.1.1.1.0;
        containment_action = p.1.1.1.1.1.1.1.1.1.1.1.1.1.0;
        cleanup_status = p.1.1.1.1.1.1.1.1.1.1.1.1.1.1.0;
        timestamp_utc = p.1.1.1.1.1.1.1.1.1.1.1.1.1.1.1.0;
        signature_hex = p.1.1.1.1.1.1.1.1.1.1.1.1.1.1.1.1.0;
        public_key_hex = p.1.1.1.1.1.1.1.1.1.1.1.1.1.1.1.1.1.0;
        evidence = p.1.1.1.1.1.1.1.1.1.1.1.1.1.1.1.1.1.1;
      })
      (λ r. (
        r.run_id,
        (
          r.scenario_id,
          (
            r.scenario_name,
            (
              r.category,
              (
                r.mitre_technique,
                (
                  r.mitre_tactic,
                  (
                    r.severity,
                    (
                      r.tag,
                      (
                        r.initiator,
                        (
                          r.runner_id,
                          (
                            r.status,
                            (
                              r.measurements,
                              (
                                r.detection_source,
                                (
                                  r.containment_action,
                                  (
                                    r.cleanup_status,
                                    (
                                      r.timestamp_utc,
                                      (r.signature_hex, (r.public_key_hex, r.evidence)),
                                    ),
                                  ),
                                ),
                              ),
                            ),
                          ),
                        ),
                      ),
                    ),
                  ),
                ),
              ),
            ),
          ),
        ),
      ))
      (λ r. refl)
      (pair_codec text_codec (
        pair_codec text_codec (
          pair_codec text_codec (
            pair_codec text_codec (
              pair_codec text_codec (
                pair_codec text_codec (
                  pair_codec text_codec (
                    pair_codec text_codec (
                      pair_codec text_codec (
                        pair_codec text_codec (
                          pair_codec text_codec (
                            pair_codec measurements_codec (
                              pair_codec text_codec (
                                pair_codec text_codec (
                                  pair_codec text_codec (
                                    pair_codec text_codec (
                                      pair_codec text_codec (
                                        pair_codec text_codec
                                          (option_codec evidence_codec)))))))))))))))))))

-- Past the line feed.
abbrev shifted : Text → Text
shifted s = map (λ n. n + 11) s

abbrev unshifted : Text → Text
unshifted s = map (λ n. n - 11) s

unshifted-shifted : (s : Text) → unshifted (shifted s ++ 0 ∷ []) ≡ s ++ 0 ∷ []
unshifted-shifted [] = refl
unshifted-shifted (n ∷ s) =
    let same : (n + 11) - 11 ≡ n = omega arith in rw (same, unshifted-shifted s) refl

abbrev pub to_line : AuditRecord → Text
to_line r = 0 ∷ shifted (audit_codec.enc r) ++ 0 ∷ []

abbrev of_dec : Option (AuditRecord × Text) → Result (Unit {0}) AuditRecord
of_dec none = err tt
of_dec (some (r, rest)) = ok r

abbrev pub from_str : Text → Result (Unit {0}) AuditRecord
from_str [] = err tt
from_str (c ∷ s) = of_dec (audit_codec.dec (unshifted s))

trim_line : (s : Text) → trim (0 ∷ s ++ 0 ∷ []) ≡ 0 ∷ s ++ 0 ∷ []
unfolding trim trim_start is_space
trim_line s =
    rw (reverse-append (0 ∷ s) (0 ∷ []))
      (rw (reverse-cons 0 (reverse (0 ∷ s)), reverse-reverse (0 ∷ s)) refl)

pub decodes : (r : AuditRecord) → from_str (trim (to_line r)) ≡ ok r
decodes r =
    ap from_str (trim_line (shifted (audit_codec.enc r)))
    ∙ ap (λ s. of_dec (audit_codec.dec s)) (unshifted-shifted (audit_codec.enc r))
    ∙ ap of_dec (audit_codec.law r (0 ∷ []))

pub not_blank : (r : AuditRecord) → nat_eq (length (trim (to_line r))) 0 ≡ false
not_blank r = rw (trim_line (shifted (audit_codec.enc r))) (ground arith)

shifted-is_one_line : (s : Text) → is_one_line (shifted s ++ 0 ∷ []) ≡ true
unfolding is_one_line
shifted-is_one_line [] = refl
shifted-is_one_line (n ∷ s) =
    let past : nat_eq (n + 11) 10 ≡ false = ground arith in rw (past, shifted-is_one_line s) refl

pub one_line : (r : AuditRecord) → is_one_line (to_line r) ≡ true
unfolding is_one_line
one_line r = rw (shifted-is_one_line (audit_codec.enc r)) refl
