-- ===== src/Connection/Update.antt =====
-- connection.rs: `update` gives every target the values at the ports of the source.
use fastsim.Common.{
  ℕ, ◌<◌, ◌≡◌, refl, sym, ap, subst, ◌∙◌, true, Bool-cases, inl, inr, List, [], ◌∷◌, Option, none,
  some, some-inj, Option-cases, All, All-map, length, length-set, lt-length, get_elem?,
  get_elem?-set_self, get_elem?-set_ne, set, ◌==◌, ==_iff,
}
use fastsim.F64.{F64}
use fastsim.Utils.Register.{Register, write, write_all, get_indices}
use fastsim.Utils.PortReference.{
  PortReference, Block, Side, cache, register, resolve_indices, ensure_indices, expect_resolved, to,
}
use fastsim.Connection.{Connection, send_all, update}
use fastsim.Connection.Transfer.{InRange, transfer-write_all}

-- The ports that a reference has resolved, if any.
unfoldable pub indices_or_none : Option (List ℕ) → List ℕ
indices_or_none none = []
indices_or_none (some is) = is

module _ (R : F64) where
  -- The reference has resolved its ports to `is`, and the register of its block has them.
  abbrev pub IsResolvedTo : Side → List (Block R) → PortReference → List ℕ → Type 0
  IsResolvedTo side blocks ref is =
      (b : Block R) × (get_elem? blocks ref.block ≡ some b)
      × (cache side ref ≡ some is)
      × InRange R (register R side b) is

  -- A target has resolved its ports.
  abbrev pub IsReady : List (Block R) → PortReference → Type 0
  IsReady blocks trg = IsResolvedTo Side.input blocks trg (indices_or_none trg.input_indices)

  -- The values are written to the ports of one target, in turn.
  unfoldable pub deliver : List (Block R) → List R.F → PortReference → List (Block R)
  unfolding indices_or_none
  deliver blocks vs trg = elim (get_elem? blocks trg.block) [
    | none ↦ blocks
    | some b ↦
        set blocks trg.block
          (record b { inputs = write_all R b.inputs (indices_or_none trg.input_indices) vs })
  ]

  -- The same values go to every target.
  unfoldable pub broadcast : List (Block R) → List R.F → List PortReference → List (Block R)
  unfolding deliver
  broadcast blocks vs [] = blocks
  broadcast blocks vs (trg ∷ targets) = broadcast (deliver blocks vs trg) vs targets

  length-write_all :
      (is : List ℕ) (r : Register R) (vs : List R.F)
      → length (write_all R r is vs).values ≡ length r.values
  unfolding write_all write
  length-write_all [] r vs = refl
  length-write_all (i ∷ is) r [] = refl
  length-write_all (i ∷ is) r (v ∷ vs) =
      length-write_all is (write R r i v) vs ∙ length-set r.values i v

  -- The outputs stay, and so do the sizes of the registers.
  abbrev Keeps : List (Block R) → List (Block R) → Type 0
  Keeps blocks blocks' =
      (k : ℕ) (b : Block R)
      → get_elem? blocks k ≡ some b
      → (b' : Block R) × (get_elem? blocks' k ≡ some b')
        × (b'.outputs ≡ b.outputs)
        × (length b'.inputs.values ≡ length b.inputs.values)

  deliver-Keeps :
      (blocks : List (Block R)) (vs : List R.F) (trg : PortReference)
      → Keeps blocks (deliver blocks vs trg)
  unfolding deliver
  deliver-Keeps blocks vs trg k b at = elim (Option-cases (get_elem? blocks trg.block)) [
    | inl missing ↦ rw (missing, deliver) (b, at, refl, refl)
    | inr (into, here) ↦
        let is = indices_or_none trg.input_indices in
        let next : Block R = record into { inputs = write_all R into.inputs is vs } in
        rw (here, deliver)
          (elim (Bool-cases (trg.block == k)) [
            | inl same ↦
                let e = (==_iff trg.block k).0 same in
                let into≡b : into ≡ b = some-inj (sym here ∙ ap (get_elem? blocks) e ∙ at) in
                (
                  next,
                  subst (λ j. get_elem? (set blocks trg.block next) j ≡ some next) e
                      (get_elem?-set_self blocks trg.block next (lt-length blocks trg.block here)),
                  ap (λ c. c.outputs) into≡b,
                  length-write_all is into.inputs vs ∙ ap (λ c. length c.inputs.values) into≡b,
                )
            | inr other ↦ (
              b,
              get_elem?-set_ne blocks trg.block k next
                    (λ e. let same = (==_iff trg.block k).1 e in cc)
                  ∙ at,
              refl,
              refl,
            )
          ])
  ]

  Keeps-IsReady :
      (blocks blocks' : List (Block R)) (trg : PortReference)
      → Keeps blocks blocks'
      → IsReady blocks trg
      → IsReady blocks' trg
  unfolding register
  Keeps-IsReady blocks blocks' trg keeps (b, at, cached, inside) =
      let (b', at', _, size) = keeps trg.block b at in
      (b', at', cached, All-map (λ i lt. subst (λ n. i < n) (sym size) lt) _ inside)

  Keeps-source :
      (blocks blocks' : List (Block R)) (source : PortReference) (is : List ℕ)
      → Keeps blocks blocks'
      → (ready : IsResolvedTo Side.output blocks source is)
      → (ready' : IsResolvedTo Side.output blocks' source is) × (ready'.0.outputs ≡ ready.0.outputs)
  unfolding register
  Keeps-source blocks blocks' source is keeps (b, at, cached, inside) =
      let (b', at', same, _) = keeps source.block b at in
      ((b', at', cached, subst (λ r. InRange R r is) (sym same) inside), same)

  ensure-cached :
      (side : Side) (blocks : List (Block R)) (ref : PortReference) (is : List ℕ)
      → cache side ref ≡ some is
      → ensure_indices R side blocks ref
        ≡ some (record { blocks = blocks; reference = ref; indices = is })
  unfolding ensure_indices resolve_indices expect_resolved
  ensure-cached side blocks ref is cached = rw (cached, ensure_indices, resolve_indices) refl

  to-deliver :
      (blocks : List (Block R)) (source trg : PortReference) (is : List ℕ)
      → (ready : IsResolvedTo Side.output blocks source is) → IsReady blocks trg
      → to R blocks source trg
        ≡ some (record {
          blocks = deliver blocks (get_indices R ready.0.outputs is) trg;
          source = source;
          target = trg;
        })
  unfolding to deliver register
  to-deliver blocks source trg is (b, at, cached, inside) (b', at', cached', inside') =
      rw
        (
          ensure-cached Side.output blocks source is cached,
          ensure-cached Side.input blocks trg (indices_or_none trg.input_indices) cached',
          transfer-write_all R blocks source.block trg.block is (indices_or_none trg.input_indices)
              b b' at at' inside inside',
          at',
          deliver,
        )
        refl

  send_all-broadcast :
      (targets : List PortReference) (blocks : List (Block R)) (source : PortReference)
      (is : List ℕ) (outputs : Register R)
      → (ready : IsResolvedTo Side.output blocks source is) → ready.0.outputs ≡ outputs
      → All (IsReady blocks) targets
      → send_all R blocks source targets
        ≡ some (record {
          blocks = broadcast blocks (get_indices R outputs is) targets;
          source = source;
          targets = targets;
        })
  unfolding send_all broadcast
  send_all-broadcast [] blocks source is outputs ready same h = refl
  send_all-broadcast (trg ∷ targets) blocks source is outputs ready same h =
      let vs = get_indices R outputs is in
      let next = deliver blocks vs trg in
      let keeps = deliver-Keeps blocks vs trg in
      let (ready', same') = Keeps-source blocks next source is keeps ready in
      rw
        (
          to-deliver blocks source trg is ready h.0
              ∙ ap
                  (λ o. some (record {
                    blocks = deliver blocks (get_indices R o is) trg;
                    source = source;
                    target = trg;
                  }))
                  same,
          send_all-broadcast targets next source is outputs ready' (same' ∙ same)
              (All-map (λ t. Keeps-IsReady blocks next t keeps) targets h.1),
        )
        refl

  -- An active connection whose source has resolved its ports to `is`, with every target resolved: the
  -- update does not panic, leaves the connection as it is, and gives each target in turn the values
  -- that the ports `is` of the source had before it, also where a target is the block of the source.
  pub update-broadcast :
      (blocks : List (Block R)) (c : Connection) (is : List ℕ)
      → (ready : IsResolvedTo Side.output blocks c.source is) → All (IsReady blocks) c.targets
      → c.active ≡ true
      → update R blocks c ≡ some (broadcast blocks (get_indices R ready.0.outputs is) c.targets, c)
  unfolding update
  update-broadcast blocks c is ready h on =
      rw (on, send_all-broadcast c.targets blocks c.source is ready.0.outputs ready refl h) refl
