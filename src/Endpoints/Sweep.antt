-- ===== src/Endpoints/Sweep.antt =====
-- `purge_old_tags_` on a clock that moves on: every endpoint is judged by a reading of its own.
use esphome_pn.Endpoints.Parts.{
  take-suc, All-get, whole, take-erase_at, drop-erase_at, All-erase_at, drop-suc, length-erase_at,
}
use esphome_pn.Driver.Reads.{get_elem?-some}
use esphome_pn.Driver.Quiet.{Returns, returned, Returns-map}
use esphome_pn.Endpoints.Purge.{same_but_endpoints, erase_tag_lem}
use esphome_pn.Driver.{Device, State}
use esphome_pn.Endpoints.{Endpoint, is_expired, purge_loop, purge_round, purge_old_tags, sub32}
use esphome_pn.Prelude.{
  ℕ, List, drop, ◌<◌, take, get_elem?, erase_at, ◌≡◌, ◌++◌, length, [], some, ◌≤◌, suc, ◌∷◌, ap,
  arith, zero, refl, subst, ◌∙◌, sym, append-nil, append_assoc, Bool-cases, inl, inr, ltb, ◌-◌, All,
  ◌%◌, ◌^◌,
}
use esphome_pn.Platform.{Platform, Event}

-- the milliseconds from one time to another, as 32 bits show them
abbrev pub elapsed : ℕ → ℕ → ℕ
elapsed from to = (to - from) % 2 ^ 32

sub32_lem : (from to : ℕ) → from ≤ to → sub32 (to % 2 ^ 32) (from % 2 ^ 32) ≡ elapsed from to
sub32_lem from to h = omega arith

module _ ⦃p : Platform⦄ where
  -- `time` is the time of the board, which does not wrap and does not go back; `millis()` gives its
  -- last 32 bits.
  pub record IsTime (time : p.Env → ℕ) : Type 0 where
    pub shows : (e : p.Env) → (p.millis e).0 ≡ time e % 2 ^ 32
    pub reading : (e : p.Env) → time e ≤ time (p.millis e).1
    pub emitting : (event : Event p.NfcTag) (e : p.Env) → time e ≤ time (p.emit event e)

  -- an endpoint that was seen at the time `seen x`, not after `now`
  abbrev pub WasSeen : (Endpoint → ℕ) → ℕ → Endpoint → Type 0
  WasSeen seen now x = (x.last_seen ≡ seen x % 2 ^ 32) × (seen x ≤ now)

  -- `Sweeps xs ys`: of the endpoints `xs`, those in `ys` were kept in their order; each one was kept
  -- at a time from `first` to `last` at which it had been seen within `ttl`, or dropped at one at
  -- which it had not.
  pub data Sweeps (seen : Endpoint → ℕ) (first last ttl : ℕ)
      : List Endpoint → List Endpoint → Type 0 where
    swept : Sweeps seen first last ttl [] []
    kept :
        {x : Endpoint} {xs ys : List Endpoint} (now : ℕ)
        → first ≤ now
        → now ≤ last
        → elapsed (seen x) now ≤ ttl
        → Sweeps seen first last ttl xs ys
        → Sweeps seen first last ttl (x ∷ xs) (x ∷ ys)
    dropped :
        {x : Endpoint} {xs ys : List Endpoint} (now : ℕ)
        → first ≤ now
        → now ≤ last
        → ttl < elapsed (seen x) now
        → Sweeps seen first last ttl xs ys
        → Sweeps seen first last ttl (x ∷ xs) ys

module _ ⦃p : Platform⦄ {seen : Endpoint → ℕ} {first last ttl : ℕ} where
  Sweeps-append :
      {xs ys xs' ys' : List Endpoint}
      → Sweeps seen first last ttl xs ys
      → Sweeps seen first last ttl xs' ys'
      → Sweeps seen first last ttl (xs ++ xs') (ys ++ ys')
  Sweeps-append swept q = q
  Sweeps-append (kept now l h e r) q = kept now l h e (Sweeps-append r q)
  Sweeps-append (dropped now l h e r) q = dropped now l h e (Sweeps-append r q)

module _ ⦃p : Platform⦄ where
  -- What the rounds below `i` leave that begin at `start` and end at `last`: the endpoints `young`
  -- in front of those that were judged before.
  record Leaves (seen : Endpoint → ℕ) (start first last i : ℕ) (d d' : Device p) : Type 0 where
    young : List Endpoint
    judged : Sweeps seen first last d.tag_ttl (take i d.discovered_endpoint) young
    left : d' ≡ same_but_endpoints d (young ++ drop i d.discovered_endpoint)
    later : start ≤ last

  module _ {seen : Endpoint → ℕ} {start first last i : ℕ} {d d' : Device p} (x : Endpoint)
      (at_i : get_elem? d.discovered_endpoint i ≡ some x) (now : ℕ) (from : first ≤ now)
      (to : now ≤ start) where
    Leaves-dropped :
        d.tag_ttl < elapsed (seen x) now
        → Leaves seen start first last i
            (same_but_endpoints d (erase_at d.discovered_endpoint i))
            d'
        → Leaves seen now first last (suc i) d d'
    Leaves-dropped old l =
        let xs = d.discovered_endpoint in
        let front : take i (erase_at xs i) ++ x ∷ [] ≡ take (suc i) xs =
          ap (λ ys. ys ++ x ∷ []) (take-erase_at i xs) ∙ sym (take-suc i xs x at_i) in
        let end = dropped now from (omega (arith, l.later)) old swept in
        record {
          young = l.young ++ [];
          judged =
              subst (λ ys. Sweeps seen first last d.tag_ttl ys (l.young ++ [])) front
                (Sweeps-append l.judged end);
          left =
              l.left
              ∙ ap (λ ys. same_but_endpoints d (l.young ++ ys)) (drop-erase_at i xs)
              ∙ ap (λ ys. same_but_endpoints d (ys ++ drop (suc i) xs)) (sym (append-nil l.young));
          later = omega (arith, l.later);
        }

    Leaves-kept :
        elapsed (seen x) now ≤ d.tag_ttl
        → Leaves seen start first last i d d'
        → Leaves seen now first last (suc i) d d'
    Leaves-kept fresh_ l =
        let xs = d.discovered_endpoint in
        let end = kept now from (omega (arith, l.later)) fresh_ swept in
        record {
          young = l.young ++ x ∷ [];
          judged =
              subst (λ ys. Sweeps seen first last d.tag_ttl ys (l.young ++ x ∷ []))
                (sym (take-suc i xs x at_i)) (Sweeps-append l.judged end);
          left =
              l.left
              ∙ ap (λ ys. same_but_endpoints d (l.young ++ ys)) (drop-suc i xs x at_i)
              ∙ ap (same_but_endpoints d) (sym (append_assoc l.young (x ∷ []) (drop (suc i) xs)));
          later = omega (arith, l.later);
        }

  module _ {time : p.Env → ℕ} (clock : IsTime time) (seen : Endpoint → ℕ) where
    -- what `millis()` and the endpoint's member say of its age
    is_expired_lem :
        (ttl : ℕ) (x : Endpoint) (e : p.Env)
        → WasSeen seen (time e) x
        → is_expired (p.millis e).0 ttl x ≡ ltb ttl (elapsed (seen x) (time e))
    is_expired_lem ttl x e w =
        ap (λ now. is_expired now ttl x) (clock.shows e)
        ∙ ap (λ last_seen. ltb ttl (sub32 (time e % 2 ^ 32) last_seen)) w.0
        ∙ ap (ltb ttl) (sub32_lem (seen x) (time e) w.1)

    purge_loop-Leaves :
        (first i : ℕ) (s : State p)
        → first ≤ time s.env
        → All (WasSeen seen first) s.discovered_endpoint
        → i ≤ length s.discovered_endpoint
        → i ≤ 256
        → Returns
            (λ s'. Leaves seen (time s.env) first (time s'.env) i s.dev s'.dev)
            (purge_loop i s)
    unfolding purge_loop purge_round
    purge_loop-Leaves first zero s from all h l =
        returned (record { young = []; judged = swept; left = refl; later = omega arith })
    purge_loop-Leaves first (suc i) s from all h l =
        let xs = s.discovered_endpoint in
        let (x, at_i) = get_elem?-some xs i (omega arith) in
        let now = time s.env in
        let e = (p.millis s.env).1 in
        let ticked = clock.reading s.env in
        let (shown, before) = All-get (WasSeen seen first) i xs x all at_i in
        let expired = is_expired_lem s.tag_ttl x s.env (shown, omega arith) in
        elim (Bool-cases (ltb s.tag_ttl (elapsed (seen x) now))) [
          | inl old ↦
              let (e', passed, erased) =
                erase_tag_lem (λ e'. time e ≤ time e')
                  (λ event e' q. omega (arith, clock.emitting event e')) i (record s { env = e })
                  (omega arith) (omega arith) in
              let small : i % 256 ≡ i = omega arith in
              let rest =
                purge_loop-Leaves first i
                  (record s { dev = same_but_endpoints s.dev (erase_at xs i); env = e' })
                  (omega arith) (All-erase_at (WasSeen seen first) i xs all)
                  (omega (arith, length-erase_at i xs)) (omega arith) in
              rw at_i (
                rw expired (
                  rw old (
                    rw erased (
                      rw small (
                        Returns-map
                          (λ s'. Leaves-dropped x at_i now from (omega arith) (ground arith))
                          rest)))))
          | inr young ↦
              let rest =
                purge_loop-Leaves first i (record s { env = e }) (omega arith) all (omega arith)
                  (omega arith) in
              rw at_i (
                rw expired (
                  rw young
                    (Returns-map (λ s'. Leaves-kept x at_i now from ticked (ground arith)) rest)))
        ]

    -- With at most 256 endpoints, each last seen at the time `seen x`, not after the call began, of
    -- which its member holds the last 32 bits, and a clock that moves on as it likes and shows the
    -- last 32 bits of the time: `purge_old_tags_` returns. Every endpoint is judged at a time from
    -- the call's begin to its end: it is kept if, modulo 2^32, it was seen not longer ago than the
    -- time to live, and dropped if it was. The order of the endpoints and every other member are as
    -- before.
    pub purge_old_tags-Sweeps :
        (s : State p)
        → length s.discovered_endpoint ≤ 256
        → All (WasSeen seen (time s.env)) s.discovered_endpoint
        → Returns
            (λ s'.
              (xs : List Endpoint) × Sweeps seen
                (time s.env)
                (time s'.env)
                s.tag_ttl
                s.discovered_endpoint
                xs
              × (s'.dev ≡ same_but_endpoints s.dev xs))
            (purge_old_tags s)
    unfolding purge_old_tags
    purge_old_tags-Sweeps s small all =
        let xs = s.discovered_endpoint in
        let (every, none_left) = whole xs in
        Returns-map
          (λ s' l. (
            l.young,
            subst (λ ys. Sweeps seen (time s.env) (time s'.env) s.tag_ttl ys l.young) every
                l.judged,
            l.left
                ∙ ap (λ ys. same_but_endpoints s.dev (l.young ++ ys)) none_left
                ∙ ap (same_but_endpoints s.dev) (append-nil l.young),
          ))
          (purge_loop-Leaves (time s.env) (length xs) s (omega arith) all (omega arith) small)
