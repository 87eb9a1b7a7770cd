-- ===== src/ControlPlane/Store/Steps.antt =====
-- The store over time: every sequence of calls, by any clients, from an empty store.
use paperless_assistant.Base.{
  ℕ, ◌≡◌, refl, inl, inr, String, Option, arith, Option-cases, nat_eq, string_eq, pair_eq,
}
use paperless_assistant.Base.Dict.{lookup, get_or}
use paperless_assistant.Base.Json.{Json}
use paperless_assistant.ControlPlane.Store.{Store, empty_store}
use paperless_assistant.ControlPlane.Store.Queue.{enqueue, lease_next}
use paperless_assistant.ControlPlane.Store.Results.{ack, results_count}
use paperless_assistant.ControlPlane.Store.Results.Bound.{
  ResultsValid, ResultsValid-same, ack-ResultsValid,
}
use paperless_assistant.ControlPlane.Store.Agents.{
  mint_enrollment_token, enroll, rotate_credential, revoke, record_heartbeat,
}
use paperless_assistant.ControlPlane.Store.Agents.Credentials.{
  enroll-unknown, enroll-known, enrolled_store,
}
use paperless_assistant.ControlPlane.Store.Routing.{
  Routed, Routed-queues, set_default-Routed, lease_next-Routed, enqueue-Routed, ack-Routed,
}

module _ (scrypt : String → String → String) where
  -- One call of a method that changes the store. The lock makes the calls of all threads a sequence.
  pub data Step (s : Store) : Store → Type 0 where
    mint :
        (now : ℕ) (token tenant : String) (hint : Option String)
        → Step s (mint_enrollment_token now token tenant hint s).1
    enrolled :
        (now : ℕ) (agent_id credential salt token : String)
        → Step s (enroll scrypt now agent_id credential salt token s).1
    rotated :
        (agent_id credential salt : String)
        → Step s (rotate_credential scrypt agent_id credential salt s).1
    revoked : (agent_id : String) → Step s (revoke agent_id s).1
    heartbeat :
        (now : ℕ) (agent_id : String) (status : Json)
        → Step s (record_heartbeat now agent_id status s)
    enqueued :
        (now : ℕ) (fresh tenant agent_id job_type : String) (payload : Json)
        (job_id : Option String)
        → Step s (enqueue now fresh tenant agent_id job_type payload job_id s).1
    leased :
        (now now' : ℕ) (tenant agent_id : String) → Step s (lease_next now now' tenant agent_id s).1
    acked :
        (now now' : ℕ) (tenant agent_id job_id : String) (result : Option Json)
        → Step s (ack now now' tenant agent_id job_id result s).1

  pub data Reach (s : Store) : Store → Type 0 where
    here : Reach s s
    next : {t u : Store} → Reach s t → Step t u → Reach s u

pub record StoreValid (s : Store) : Type 0 where
  pub routed : Routed s
  pub results : ResultsValid s

-- a call that leaves the queues, the results and their bound alone
same_parts :
    (s s' : Store)
    → s'.queues ≡ s.queues
    → s'.results ≡ s.results
    → s'.results_max ≡ s.results_max
    → StoreValid s
    → StoreValid s'
same_parts s s' q r m v = record {
  routed = Routed-queues s s' q v.routed;
  results = ResultsValid-same s s' r m v.results;
}

module _ (scrypt : String → String → String) where
  enroll-StoreValid :
      (now : ℕ) (agent_id credential salt token : String) (s : Store)
      → StoreValid s
      → StoreValid (enroll scrypt now agent_id credential salt token s).1
  enroll-StoreValid now agent_id credential salt token s v =
      elim (Option-cases (lookup token s.enrollment_tokens)) [
        | inl unknown ↦ rw (enroll-unknown scrypt now agent_id credential salt token s unknown) v
        | inr (info, known) ↦
            let s' = enrolled_store scrypt now agent_id credential salt token info s in
            rw (enroll-known scrypt now agent_id credential salt token info s known) (record {
              routed = set_default-Routed (info.tenant, agent_id) s s' refl v.routed;
              results = ResultsValid-same s s' refl refl v.results;
            })
      ]

  Step-StoreValid : {s t : Store} → Step scrypt s t → StoreValid s → StoreValid t
  unfolding mint_enrollment_token rotate_credential revoke record_heartbeat
  Step-StoreValid {s} (mint now token tenant hint) v =
      same_parts s (mint_enrollment_token now token tenant hint s).1 refl refl refl v
  Step-StoreValid {s} (enrolled now agent_id credential salt token) v =
      enroll-StoreValid now agent_id credential salt token s v
  Step-StoreValid {s} (rotated agent_id credential salt) v =
      same_parts s (rotate_credential scrypt agent_id credential salt s).1 (ground arith)
        (ground arith) (ground arith) v
  Step-StoreValid {s} (revoked agent_id) v =
      same_parts s (revoke agent_id s).1 (ground arith) (ground arith) (ground arith) v
  Step-StoreValid {s} (heartbeat now agent_id status) v =
      same_parts s (record_heartbeat now agent_id status s) (ground arith) (ground arith)
        (ground arith) v
  Step-StoreValid {s} (enqueued now fresh tenant agent_id job_type payload job_id) v =
      let s' = (enqueue now fresh tenant agent_id job_type payload job_id s).1 in
      record {
        routed = enqueue-Routed tenant agent_id s v.routed now fresh job_type payload job_id;
        results =
            ResultsValid-same s s' (unfold enqueue in refl) (unfold enqueue in refl) v.results;
      }
  Step-StoreValid {s} (leased now now' tenant agent_id) v =
      let s' = (lease_next now now' tenant agent_id s).1 in
      record {
        routed = lease_next-Routed tenant agent_id s v.routed now now';
        results =
            ResultsValid-same s s' (unfold lease_next in refl) (unfold lease_next in refl)
              v.results;
      }
  Step-StoreValid {s} (acked now now' tenant agent_id job_id result) v = record {
    routed = ack-Routed tenant agent_id s v.routed now now' job_id result;
    results = ack-ResultsValid now now' tenant agent_id job_id result s v.results;
  }

  -- Whatever sequence of calls leads from a valid store to another, in the latter each queue holds
  -- only jobs of its own tenant and agent, and the cache of results holds at most `results_max`
  -- entries, under distinct ids.
  pub Reach-StoreValid : {s t : Store} → Reach scrypt s t → StoreValid s → StoreValid t
  Reach-StoreValid here v = v
  Reach-StoreValid (next r step) v = Step-StoreValid step (Reach-StoreValid r v)

pub empty_store-StoreValid : (timeout max ttl : ℕ) → StoreValid (empty_store timeout max ttl)
empty_store-StoreValid timeout max ttl = record {
  routed = record { all_for = λ k. unfold get_or lookup in tt };
  results = record { distinct = tt; bounded = unfold results_count in omega arith };
}
