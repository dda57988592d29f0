-- ===== src/Crypto/Backup/Retry.antt =====
-- The retry loop of one file (FileAuthentication::backup_file of
-- src/crypto/FileAuthentication.cpp) against a description by its passes.
use encrypted_backup_client.Base.{
  ℕ, zero, suc, ◌+◌, ◌-◌, ◌<◌, ◌≡◌, ◌↔◌, refl, ap, sym, ◌∙◌, Bool, Bool-cases, inl, inr, true,
  false, ◌==◌, Text, ok, arith,
}
use encrypted_backup_client.Protocol.RequestCode
use encrypted_backup_client.System.State.{M, ◌>>◌, >>=-eq-ok}
use encrypted_backup_client.System.Platform.{Platform}
use encrypted_backup_client.Crypto.Upload.{Auth, on_world}
use encrypted_backup_client.Crypto.Backup.{
  attempt, send_crc_status_request, finish_upload, give_up, backup_loop, backup_file,
  crc_trials_count,
}

module _ (P : Platform) (file_path file_name : Text) where
  abbrev pub pass : M (Auth P) Bool
  pass = attempt P file_path file_name

  abbrev pub report_error : M (Auth P) (Unit {0})
  report_error = on_world (send_crc_status_request P file_name RequestCode.crc_error)

  -- From the first state, so many uploads failed their verification and were reported.
  pub data Failing (s : Auth P) : ℕ → Auth P → Type 0 where
    none_yet : Failing s zero s
    one_more :
        {k : ℕ} {t u v : Auth P}
        → Failing s k t
        → pass t ≡ (ok false, u)
        → report_error u ≡ (ok tt, v)
        → Failing s (suc k) v

  -- The two ways in which a backup returns: an upload is verified after at most two failures, or
  -- the third one fails too.
  pub data Ended (s u : Auth P) : Type 0 where
    verified :
        {k : ℕ} {t v : Auth P}
        → k < 3
        → Failing s k t
        → pass t ≡ (ok true, v)
        → on_world (finish_upload P file_name) v ≡ (ok tt, u)
        → Ended s u
    abandoned :
        {t v : Auth P}
        → Failing s 2 t
        → pass t ≡ (ok false, v)
        → on_world (give_up P file_name) v ≡ (ok tt, u)
        → Ended s u

  -- One pass of the loop, by its verdict.
  loop_verified :
      (fuel k : ℕ) (t v : Auth P)
      → pass t ≡ (ok true, v)
      → backup_loop P (suc fuel) file_path file_name k t ≡ on_world (finish_upload P file_name) v
  unfolding backup_loop
  loop_verified fuel k t v e = rw e

  loop_abandoned :
      (fuel : ℕ) (t v : Auth P)
      → pass t ≡ (ok false, v)
      → backup_loop P (suc fuel) file_path file_name 2 t ≡ on_world (give_up P file_name) v
  unfolding backup_loop
  loop_abandoned fuel t v e = rw e

  loop_again :
      (fuel k : ℕ) (t u v : Auth P)
      → k < 2
      → pass t ≡ (ok false, u)
      → report_error u ≡ (ok tt, v)
      → backup_loop P (suc fuel) file_path file_name k t
        ≡ backup_loop P fuel file_path file_name (suc k) v
  unfolding backup_loop
  loop_again fuel k t u v h e r =
      let on : (suc k == crc_trials_count) ≡ false = ground arith in rw (e, on, r)

  Ended-of_loop :
      (fuel k : ℕ) (s t u : Auth P)
      → k + fuel ≡ 3
      → Failing s k t
      → backup_loop P fuel file_path file_name k t ≡ (ok tt, u)
      → Ended s u
  unfolding backup_loop
  Ended-of_loop zero k s t u e f h = cc
  Ended-of_loop (suc fuel) k s t u e f h =
      let (b, v, passed, rest) = >>=-eq-ok pass _ t h in
      elim (Bool-cases b) [
        | inl good ↦
            let done : pass t ≡ (ok true, v) = rw good at passed in
            verified (omega arith) f done (sym (loop_verified fuel k t v done) ∙ h)
        | inr bad ↦
            let failed : pass t ≡ (ok false, v) = rw bad at passed in
            elim (Bool-cases (suc k == crc_trials_count)) [
              | inl last ↦
                  let two : k ≡ 2 = ground arith in
                  let third : backup_loop P (suc fuel) file_path file_name 2 t ≡ (ok tt, u) =
                    rw two at h in
                  abandoned (rw two at f) failed (sym (loop_abandoned fuel t v failed) ∙ third)
              | inr more ↦
                  let onward : (report_error >> backup_loop P fuel file_path file_name (suc k)) v
                      ≡ (ok tt, u) =
                    rw (bad, more) at rest in
                  let (_, w, reported, looped) =
                    >>=-eq-ok report_error (λ _. backup_loop P fuel file_path file_name (suc k)) v
                      onward in
                  Ended-of_loop fuel (suc k) s w u (omega arith) (one_more f failed reported) looped
            ]
      ]

  loop_of_Failing :
      (s : Auth P) {k : ℕ} {t : Auth P} (fuel : ℕ)
      → Failing s k t
      → k + fuel ≡ 3
      → 0 < fuel
      → backup_loop P 3 file_path file_name 0 s ≡ backup_loop P fuel file_path file_name k t
  loop_of_Failing s fuel none_yet e h =
      ap (λ n. backup_loop P n file_path file_name 0 s)
        (let three : 3 ≡ fuel = omega arith in three)
  loop_of_Failing s fuel (one_more {k = k} {t = t} {u = u} {v = v} f p r) e h =
      loop_of_Failing s (suc fuel) f (omega arith) (omega arith)
      ∙ loop_again fuel k t u v (omega arith) p r

  -- A backup returns normally exactly when it ends in one of the two ways: after at most three
  -- uploads, with a failure reported after each but the last, a success reported after a verified
  -- upload, and the final failure reported after the third that is not.
  pub backup_file-iff-Ended :
      (s u : Auth P) → (backup_file P file_path file_name s ≡ (ok tt, u)) ↔ Ended s u
  unfolding backup_file
  backup_file-iff-Ended s u = (Ended-of_loop 3 0 s s u refl none_yet, back)
    where
      back : Ended s u → backup_loop P 3 file_path file_name 0 s ≡ (ok tt, u)
      back (verified {k = k} {t = t} {v = v} lt f p d) =
          loop_of_Failing s (suc (2 - k)) f (omega arith) (omega arith)
          ∙ loop_verified (2 - k) k t v p
          ∙ d
      back (abandoned {t = t} {v = v} f p d) =
          loop_of_Failing s 1 f refl (omega arith) ∙ loop_abandoned 0 t v p ∙ d

  -- Three passes are enough fuel: more fuel changes nothing, whatever happens.
  pub backup_loop-fuel :
      (n : ℕ) (s : Auth P)
      → backup_loop P (suc (suc (suc n))) file_path file_name 0 s
        ≡ backup_file P file_path file_name s
  unfolding backup_file backup_loop
  backup_loop-fuel n s = refl
