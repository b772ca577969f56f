-- ===== src/Heartbeat/Sequence.antt =====
-- src/functional_safety_heartbeat.cpp: the messages that a heartbeat publishes over its life, whatever
-- its threads call in between.
use livox_ros_driver.Common.{
  ℕ, zero, suc, ◌⊎◌, ◌≡◌, refl, ◌+◌, ◌%◌, ◌^◌, ap, List, [], ◌∷◌, ◌++◌, inl, inr, arith, some,
  length, length-append, get_elem?,
}
use mathlib.Core.Path.{subst}
use mathlib.Core.Option.{some-injective}
use livox_ros_driver.Heartbeat.{
  HeartbeatPublisher, HeartbeatConfig, NodeHeartbeat, NodeState, new_heartbeat, initial_heartbeat,
  set_state, update_faults, record_work, publish_now, stop, advance, heartbeat_message,
}
use livox_ros_driver.Heartbeat.Faults.{Sorted, above, update_faults_lem}

pub data HeartbeatCall : Type 0 where
  call_set_state : NodeState → HeartbeatCall
  call_update_faults : List ℕ → List ℕ → HeartbeatCall
  call_record_work call_publish_now call_stop : HeartbeatCall

unfoldable pub call : HeartbeatPublisher → HeartbeatCall → HeartbeatPublisher
call h (call_set_state s) = set_state h s
call h (call_update_faults failed passed) = update_faults h failed passed
call h call_record_work = record_work h
call h call_publish_now = publish_now h
call h call_stop = stop h

unfoldable pub call_all : HeartbeatPublisher → List HeartbeatCall → HeartbeatPublisher
call_all h [] = h
call_all h (c ∷ cs) = call_all (call h c) cs

-- Message `i` of a heartbeat.
pub record Numbered (c : HeartbeatConfig) (b i : ℕ) (m : NodeHeartbeat) : Type 0 where
  pub node_id : m.node_id ≡ c.node_id
  pub boot_id : m.boot_id ≡ b
  pub heartbeat_seq : m.heartbeat_seq ≡ (i + 1) % 2 ^ 32
  pub faults : Sorted m.active_fault

pub record IsValid (c : HeartbeatConfig) (b : ℕ) (h : HeartbeatPublisher) : Type 0 where
  pub config : h.config ≡ c
  pub boot_id : h.boot_id ≡ b
  pub faults : Sorted h.active_faults
  pub counted : h.heartbeat_seq ≡ length h.published % 2 ^ 32
  pub numbered : (i : ℕ) (m : NodeHeartbeat) → get_elem? h.published i ≡ some m → Numbered c b i m

get_elem?_last :
    {A : Type 0} (xs : List A) (x : A) (i : ℕ) (y : A)
    → get_elem? (xs ++ x ∷ []) i ≡ some y
    → (get_elem? xs i ≡ some y) ⊎ ((i ≡ length xs) × (x ≡ y))
get_elem?_last [] x zero y h = inr (refl, some-injective x y h)
get_elem?_last [] x (suc i) y h = cc
get_elem?_last (z ∷ xs) x zero y h = inl h
get_elem?_last (z ∷ xs) x (suc i) y h = elim (get_elem?_last xs x i y h) [
  | inl e ↦ inl e
  | inr (e, f) ↦ inr (ap suc e, f)
]

publish_now-IsValid :
    {config : HeartbeatConfig} {boot_id : ℕ} (h : HeartbeatPublisher)
    → IsValid config boot_id h
    → IsValid config boot_id (publish_now h)
unfolding publish_now heartbeat_message advance
publish_now-IsValid h v = record {
  config = v.config;
  boot_id = v.boot_id;
  faults = v.faults;
  counted = omega (arith, v.counted, length-append h.published (heartbeat_message h ∷ []));
  numbered = λ i m e. elim (get_elem?_last h.published (heartbeat_message h) i m e) [
    | inl old ↦ v.numbered i m old
    | inr (at, new) ↦ subst (Numbered _ _ i) new (record {
      node_id = ap (λ c. c.node_id) v.config;
      boot_id = v.boot_id;
      heartbeat_seq = omega (arith, v.counted);
      faults = v.faults;
    })
  ];
}

call-IsValid :
    {config : HeartbeatConfig} {boot_id : ℕ} (h : HeartbeatPublisher) (c : HeartbeatCall)
    → IsValid config boot_id h
    → IsValid config boot_id (call h c)
unfolding call set_state update_faults record_work stop
call-IsValid h (call_set_state s) v = record {
  config = v.config;
  boot_id = v.boot_id;
  faults = v.faults;
  counted = v.counted;
  numbered = v.numbered;
}
call-IsValid h (call_update_faults failed passed) v = record {
  config = v.config;
  boot_id = v.boot_id;
  faults = (update_faults_lem h failed passed 0 v.faults).0;
  counted = v.counted;
  numbered = v.numbered;
}
call-IsValid h call_record_work v = record {
  config = v.config;
  boot_id = v.boot_id;
  faults = v.faults;
  counted = v.counted;
  numbered = v.numbered;
}
call-IsValid h call_publish_now v = publish_now-IsValid h v
call-IsValid h call_stop v = record {
  config = v.config;
  boot_id = v.boot_id;
  faults = v.faults;
  counted = v.counted;
  numbered = v.numbered;
}

new_heartbeat-IsValid :
    (config : HeartbeatConfig) (boot_id : ℕ) (h : HeartbeatPublisher)
    → new_heartbeat config boot_id ≡ some h
    → IsValid config boot_id h
unfolding new_heartbeat Sorted above
new_heartbeat-IsValid config boot_id h e = subst (IsValid config boot_id) same (record {
  config = refl;
  boot_id = refl;
  faults = refl;
  counted = refl;
  numbered = λ i m f. cc;
})
  where
    same : initial_heartbeat config boot_id ≡ h
    same = ground arith

-- A heartbeat that the constructor made, after any sequence of calls in any order: the messages
-- it published carry its node id and boot id, are numbered 1, 2, 3, … modulo 2 ^ 32 without a
-- gap, and list their active faults in order, each once and never 0.
pub call_all-IsValid :
    (config : HeartbeatConfig) (boot_id : ℕ) (h : HeartbeatPublisher) (cs : List HeartbeatCall)
    → new_heartbeat config boot_id ≡ some h
    → IsValid config boot_id (call_all h cs)
unfolding call_all
call_all-IsValid config boot_id h cs e = go h cs (new_heartbeat-IsValid config boot_id h e)
  where
    go :
        (h : HeartbeatPublisher) (cs : List HeartbeatCall)
        → IsValid config boot_id h
        → IsValid config boot_id (call_all h cs)
    go h [] v = v
    go h (c ∷ cs) v = go (call h c) cs (call-IsValid h c v)
