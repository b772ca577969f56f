-- ===== src/Lddc/Routes.antt =====
-- src/lddc.cpp: which publisher a message goes to, whatever was published before.
use mathlib.Core.Path.{subst}
use livox_ros_driver.Common.{
  ℕ, zero, suc, replicate, ◌<◌, ◌≡◌, refl, sym, ◌∙◌, ap, Bool, true, false, List, none, some, ◌==◌,
  if◌then◌else◌, length, get_elem?, set, arith, length-set, get_elem?-set, get_elem?_lt, Bool-cases,
  Option-cases, inl, inr, ==_iff,
}
use livox_ros_driver.Common.Memory.{ok}
use livox_ros_driver.Lds.{Lds}
use livox_ros_driver.ParseCfg.{Inet}
use livox_ros_driver.Lddc.Topics.{
  MessageKind, Publisher, Publishers, Naming, create_publisher, private_topic, current_publisher,
}

-- Which message type `create_publisher` makes of a naming.
abbrev pub Creates : MessageKind → Naming → Type 0
Creates kind names =
    (topic : List ℕ) (queue_size : ℕ)
    → create_publisher names.msg_type topic queue_size
      ≡ some (record { kind = kind; topic = topic; queue_size = queue_size })

module _ {F : Type 0} (inet : Inet) (l : Lds F) where
  abbrev pub handle_at : ℕ → ℕ
  handle_at i = elim (get_elem? l.lidars i) [ none ↦ 0 | some device ↦ device.handle ]

  abbrev pub publisher_of : MessageKind → Naming → ℕ → Publisher
  publisher_of kind names handle = record {
    kind = kind;
    topic = private_topic inet names.prefix handle;
    queue_size = 64;
  }

  abbrev pub own_publisher : MessageKind → Naming → ℕ → Publisher
  own_publisher kind names i = publisher_of kind names (handle_at i)

  abbrev pub global_publisher : MessageKind → Naming → Publisher
  global_publisher kind names = record { kind = kind; topic = names.global_topic; queue_size = 256 }

  -- Every publisher that was made is the one for its place.
  pub record Routed (kind : MessageKind) (names : Naming) (ps : Publishers) : Type 0 where
    pub size : length ps.own ≡ 32
    pub own_made :
        (i : ℕ) (p : Publisher)
        → get_elem? ps.own i ≡ some (some p)
        → p ≡ own_publisher kind names i
    pub global_made : (p : Publisher) → ps.global ≡ some p → p ≡ global_publisher kind names

  -- The reference: the publisher by the kind of the message and the lidar alone.
  unfoldable pub chosen : Bool → MessageKind → Naming → ℕ → Publisher
  chosen multi kind names i =
      if multi then own_publisher kind names i else global_publisher kind names

  abbrev Chosen : Bool → MessageKind → Naming → ℕ → Publishers → Type 0
  Chosen multi kind names i ps =
      (ps' : Publishers) × (current_publisher inet l multi names i ps
        ≡ ok (some (chosen multi kind names i), ps'))
      × Routed kind names ps'

  made-Routed :
      (kind : MessageKind) (names : Naming) (i : ℕ) (ps : Publishers)
      → i < 32
      → Routed kind names ps
      → Routed kind names (record ps { own = set ps.own i (some (own_publisher kind names i)) })
  made-Routed kind names i ps small r = record {
    size = length-set ps.own i _ ∙ r.size;
    own_made = λ j p e. made j p (
        sym (
          get_elem?-set ps.own i j (some (own_publisher kind names i))
            (omega (arith, r.size, small)))
        ∙ e);
    global_made = r.global_made;
  }
    where
      made :
          (j : ℕ) (p : Publisher)
          → (if i == j then some (some (own_publisher kind names i)) else get_elem? ps.own j)
            ≡ some (some p)
          → p ≡ own_publisher kind names j
      made j p e = elim (Bool-cases (i == j)) [
        | inl same ↦
            let it : some (some (own_publisher kind names i)) ≡ some (some p) =
              subst
                (λ (b : Bool).
                  (if b then some (some (own_publisher kind names i)) else get_elem? ps.own j)
                  ≡ some (some p))
                same e in
            let unwrapped : own_publisher kind names i ≡ p = cc in
            sym unwrapped ∙ ap (own_publisher kind names) ((==_iff i j).0 same)
        | inr other ↦ r.own_made j p (
            subst
              (λ (b : Bool).
                (if b then some (some (own_publisher kind names i)) else get_elem? ps.own j)
                ≡ some (some p))
              other e)
      ]

  own-Chosen :
      (kind : MessageKind) (names : Naming) (i : ℕ) (ps : Publishers)
      → Creates kind names
      → length l.lidars ≡ 32
      → i < 32
      → Routed kind names ps
      → Chosen true kind names i ps
  unfolding current_publisher chosen
  own-Chosen kind names i ps creates devices small r =
      let (present, at) = get_elem?_lt ps.own i (omega (arith, r.size, small)) in
      let (device, here) = get_elem?_lt l.lidars i (omega (arith, devices, small)) in
      let shown : device.handle ≡ handle_at i = rw (here, handle_at) refl in
      elim (Option-cases present) [
        | inr (p, e) ↦
            (ps, rw (at, e) (ap (λ q. ok (some q, ps)) (r.own_made i p (at ∙ ap some e))), r)
        | inl e ↦ (
          record ps { own = set ps.own i (some (own_publisher kind names i)) },
          rw (at, e, here, creates)
              (ap
                (λ h.
                  let p = publisher_of kind names h in
                  ok (some p, record ps { own = set ps.own i (some p) }))
                shown),
          made-Routed kind names i ps small r,
        )
      ]

  global-Chosen :
      (kind : MessageKind) (names : Naming) (i : ℕ) (ps : Publishers)
      → Creates kind names
      → Routed kind names ps
      → Chosen false kind names i ps
  unfolding current_publisher chosen
  global-Chosen kind names i ps creates r = elim (Option-cases ps.global) [
    | inr (p, e) ↦ (ps, simp e (ap (λ q. ok (some q, ps)) (r.global_made p e)), r)
    | inl e ↦ (
      record ps { global = some (global_publisher kind names) },
      rw (e, creates) refl,
      record { size = r.size; own_made = r.own_made; global_made = λ p h. cc },
    )
  ]

  -- Looking a publisher up answers the reference, and keeps the others.
  pub current_publisher-Routed :
      (multi : Bool) (kind : MessageKind) (names : Naming) (i : ℕ) (ps : Publishers)
      → Creates kind names
      → length l.lidars ≡ 32
      → i < 32
      → Routed kind names ps
      → Chosen multi kind names i ps
  current_publisher-Routed true kind names i ps creates devices small r =
      own-Chosen kind names i ps creates devices small r
  current_publisher-Routed false kind names i ps creates devices small r =
      global-Chosen kind names i ps creates r

  none_made :
      (n i : ℕ) (p : Publisher) (P : Type 0) → get_elem? (replicate n none) i ≡ some (some p) → P
  none_made zero i p P e = cc
  none_made (suc n) zero p P e = cc
  none_made (suc n) (suc i) p P e = none_made n i p P e

  pub null-Routed :
      (kind : MessageKind) (names : Naming)
      → Routed kind names (record { own = replicate 32 none; global = none })
  null-Routed kind names = record {
    size = refl;
    own_made = λ i p e. none_made 32 i p (p ≡ own_publisher kind names i) e;
    global_made = λ p e. cc;
  }
