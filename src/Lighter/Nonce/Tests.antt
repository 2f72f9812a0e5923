-- ===== src/Lighter/Nonce/Tests.antt =====
-- Two submissions: the first is accepted under nonce 5, the answer to the second is lost and its
-- error makes the manager ask for the nonce again.
use velotradex.Base.{
  ◌≡◌, refl, ◌≢◌, true, false, none, some, [], ◌∷◌, ok, throws, inl, ok-injective, ap, ◌∙◌, arith,
}
use velotradex.Text.{to_lower_case, includes, starts_with}
use velotradex.Lighter.Nonce.{
  Replies, NonceManager, SignerOutput, SendTxResult, save, allocate_nonce, refresh_nonce_if_needed,
  best_effort_refresh, journal_signed, sign_and_send, catch_failure, submit_now,
}
use velotradex.Lighter.Nonce.Order.{accepted_nonces, IsOrdered, Reach, Reach-IsOrdered}
use velotradex.Lighter.Nonce.Journal.{Tells, submit_now-Tells}

manager : Unit {0}
unfolding save allocate_nonce refresh_nonce_if_needed best_effort_refresh journal_signed
    sign_and_send catch_failure submit_now includes to_lower_case starts_with
manager = tt

abbrev signature : SignerOutput
signature = record { tx_type = 14; tx_info = "tx"; tx_info_hash = "0a1b" }

abbrev answer : SendTxResult
answer = record { accepted = true; error = none; raw = "{}"; tx_hash = some "ff" }

abbrev first : Replies
first = record {
  first_nonce = ok 5;
  tx_id = "a";
  create = none;
  sign = ok signature;
  save_signed = none;
  save_sent = none;
  send = ok answer;
  taken_unheard = false;
  save_result = none;
  save_failure = none;
  later_nonce = throws "offline";
}

abbrev second : Replies
second = record first {
  first_nonce = throws "offline";
  tx_id = "b";
  send = throws "Timeout, Nonce unknown";
  taken_unheard = true;
  later_nonce = ok 7;
}

abbrev idle_manager : NonceManager
idle_manager = record { next_nonce_value = none; journal = []; outbox = [] }

unfoldable after_first : NonceManager
unfolding manager
after_first = (submit_now first idle_manager).0

unfoldable after_second : NonceManager
unfolding manager
after_second = (submit_now second after_first).0

asked_again : after_second.next_nonce_value ≡ some 7
unfolding after_second after_first manager
asked_again = refl

both_accepted : accepted_nonces after_second.outbox ≡ 6 ∷ 5 ∷ []
unfolding after_second after_first manager
both_accepted = refl

after_second-Reach : Reach after_second
unfolding after_second after_first manager
after_second-Reach =
    Reach.submitted second (Reach.submitted first Reach.idle tt tt) tt
      (omega arith, (omega arith, tt))

Reach-IsOrdered_example : IsOrdered after_second
Reach-IsOrdered_example = Reach-IsOrdered after_second after_second-Reach

signed_hash : (s : SignerOutput) → second.sign ≡ ok s → s.tx_info_hash ≢ ""
signed_hash s e h =
    let same : signature ≡ s = ok-injective e in
    let clash : "0a1b" ≡ "" = ap (λ (x : SignerOutput). x.tx_info_hash) same ∙ h in cc

submit_now-Tells_example : Tells second 7 after_second (submit_now second after_second).0
unfolding after_second after_first manager
submit_now-Tells_example =
    submit_now-Tells second 7 after_second
      (record { create = refl; signed = refl; sent = refl; result = refl; failure = refl })
      signed_hash (inl refl)
