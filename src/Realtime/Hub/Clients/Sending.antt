-- ===== src/Realtime/Hub/Clients/Sending.antt =====
-- hub.go, the sends of sendInitialization: what a chain of sends leaves behind.
use map_walker.Prelude.{
  ℕ, zero, suc, ◌+◌, ◌≡◌, refl, ◌∙◌, ap, Bool, true, false, ◌&&◌, ◌⊎◌, inl, inr, List, [], ◌∷◌,
  arith, Bool-cases, if_cases, length,
}
use map_walker.Prelude.Eq.{nat_eq}
use map_walker.Prelude.Float.{Float64}
use map_walker.Realtime.Hub.State.{Hub, HubClient, HubMessage, try_send}
use map_walker.Realtime.Hub.Clients.{send_all}

module _ {F : Type 0} where
  -- These messages on this connection, on top of what was sent before.
  unfoldable pub sent_to :
      ℕ → List (HubMessage F) → List (ℕ × HubMessage F) → List (ℕ × HubMessage F)
  sent_to conn [] before = before
  sent_to conn (m ∷ ms) before = sent_to conn ms ((conn, m) ∷ before)

module _ (encodes takes : ℕ → Bool) where
  -- The attempt can be encoded and the connection takes it, for k attempts from the n-th on.
  unfoldable pub all_pass : ℕ → ℕ → Bool
  all_pass n zero = true
  all_pass n (suc k) = encodes n && takes n && all_pass (n + 1) k

  abbrev pub after : ℕ → ℕ → ℕ
  after n zero = n
  after n (suc k) = after (n + 1) k

  -- Either all of k attempts from n on pass and P holds, or one fails and Q holds.
  abbrev pub Either : ℕ → ℕ → Type 0 → Type 0 → Type 0
  Either n k P Q = ((all_pass n k ≡ true) × P) ⊎ ((all_pass n k ≡ false) × Q)

  pub first_failed : (n : ℕ) → all_pass n 2 ≡ false → all_pass n 4 ≡ false
  unfolding all_pass
  first_failed n e = ground (arith, e)

module _ ⦃fl : Float64⦄ (encodes takes : ℕ → Bool) where
  open fl use {F}

  try_send-result :
      (h : Hub F) (client : HubClient) (m : HubMessage F)
      → ((try_send encodes takes h client m).1
          ≡ (encodes h.output.attempts && takes h.output.attempts))
        × ((try_send encodes takes h client m).0.output.attempts ≡ h.output.attempts + 1)
  unfolding try_send
  try_send-result h client m = (ground arith, ground arith)

  try_send-sent :
      (h : Hub F) (client : HubClient) (m : HubMessage F)
      → (try_send encodes takes h client m).1 ≡ true
      → (try_send encodes takes h client m).0.output.sent ≡ (client.conn, m) ∷ h.output.sent
  unfolding try_send
  try_send-sent h client m ok =
      elim (Bool-cases (encodes h.output.attempts && takes h.output.attempts)) [
        | inl both ↦ rw (both, try_send) refl
        | inr failed ↦ absurd (ground (arith, failed, ok))
      ]

  -- A chain of sends that goes well.
  pub record Sent (ms : List (HubMessage F)) (h : Hub F) (client : HubClient) (g : Hub F)
      : Type 0 where
    pub attempts : g.output.attempts ≡ after encodes takes h.output.attempts (length ms)
    pub messages : g.output.sent ≡ sent_to client.conn ms h.output.sent

  pub send_all-result :
      (ms : List (HubMessage F)) (h : Hub F) (client : HubClient)
      → (send_all encodes takes h client ms).1
        ≡ all_pass encodes takes h.output.attempts (length ms)
  unfolding send_all all_pass
  send_all-result [] h client = refl
  send_all-result (m ∷ ms) h client =
      let r = try_send encodes takes h client m in
      ground (arith, send_all-result ms r.0 client, try_send-result h client m)

  pub send_all-Sent :
      (ms : List (HubMessage F)) (h : Hub F) (client : HubClient)
      → (send_all encodes takes h client ms).1 ≡ true
      → Sent ms h client (send_all encodes takes h client ms).0
  unfolding send_all sent_to
  send_all-Sent [] h client ok = record { attempts = refl; messages = refl }
  send_all-Sent (m ∷ ms) h client ok =
      let r = try_send encodes takes h client m in
      if_cases (λ (q : Hub F × Bool). q.1 ≡ true → Sent (m ∷ ms) h client q.0) r.1
        (λ sent fine.
          let rest = send_all-Sent ms r.0 client fine in
          record {
            attempts =
                rest.attempts
                ∙ ap (λ n. after encodes takes n (length ms)) (try_send-result h client m).1;
            messages = rest.messages ∙ ap (sent_to client.conn ms) (try_send-sent h client m sent);
          })
        (λ failed fine. absurd (ground (arith, failed, fine))) ok
