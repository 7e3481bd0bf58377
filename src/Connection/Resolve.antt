-- ===== src/Connection/Resolve.antt =====
-- connection.rs: `resolve_ports` of a connection whose names the blocks have.
use fastsim.Common.{
  ℕ, ◌<◌, ◌≤◌, ◌≡◌, refl, sym, ap, ap₂, subst, ◌∙◌, true, Bool-cases, inl, inr, List, [], ◌∷◌, none,
  some, some-inj, All, All-map, map, length, lt-length, get_elem?, get_elem?-set_self,
  get_elem?-set_ne, set, ltb, ltb→lt, ◌==◌, ==_iff, arith,
}
use fastsim.F64.{F64}
use fastsim.Utils.Register.{Register, get_single, get_indices, size_for, resize}
use fastsim.Utils.RegisterPorts.{resize_lem, get_single_lem}
use fastsim.Utils.PortReference.{
  Port, PortReference, Block, Side, cache, with_cache, register, with_register, port_index,
  push_index, port_indices, grow_register, resolve_in, Resolved, resolve_indices,
}
use fastsim.Connection.{Connection, Targets, update, resolve_targets, resolve_ports}
use fastsim.Connection.Transfer.{InRange}
use fastsim.Connection.Update.{indices_or_none, broadcast, update-broadcast}

size_for-lt : (is : List ℕ) (n : ℕ) → size_for is ≤ n → All (λ i. i < n) is
unfolding size_for
size_for-lt [] n h = tt
size_for-lt (i ∷ is) n h = (omega (arith, h), size_for-lt is n (omega (arith, h)))

module _ (R : F64) where
  -- A register keeps its names and its values, and may get further ports, which are 0.
  abbrev pub RegisterGrows : Register R → Register R → Type 0
  RegisterGrows r r' =
      (r'.mapping ≡ r.mapping)
      × (length r.values ≤ length r'.values)
      × ((j : ℕ) → get_single R r' j ≡ get_single R r j)

  abbrev pub BlockGrows : Block R → Block R → Type 0
  BlockGrows b b' = (side : Side) → RegisterGrows (register R side b) (register R side b')

  abbrev pub Grows : List (Block R) → List (Block R) → Type 0
  Grows blocks blocks' =
      (k : ℕ) (b : Block R)
      → get_elem? blocks k ≡ some b
      → (b' : Block R) × (get_elem? blocks' k ≡ some b') × BlockGrows b b'

  -- A reference that has resolved nothing, whose block has all its names, and that has a port.
  abbrev pub IsResolvable : Side → List (Block R) → PortReference → Type 0
  IsResolvable side blocks ref =
      (b : Block R) × (i : ℕ) × (is : List ℕ) × (get_elem? blocks ref.block ≡ some b)
      × (port_indices R side (register R side b) ref.ports ≡ inr (i ∷ is))
      × (cache side ref ≡ none)

  -- The reference keeps the indices `is` of its ports, and the register has them.
  abbrev pub Resolves : Side → List (Block R) → PortReference → List ℕ → Type 0
  Resolves side blocks ref is =
      (b : Block R) × (get_elem? blocks ref.block ≡ some b)
      × (port_indices R side (register R side b) ref.ports ≡ inr is)
      × (cache side ref ≡ some is)
      × InRange R (register R side b) is

  abbrev pub ResolvesOwn : List (Block R) → PortReference → Type 0
  ResolvesOwn blocks trg = Resolves Side.input blocks trg (indices_or_none trg.input_indices)

  -- What a reference refers to: resolving keeps it.
  abbrev pub endpoint : PortReference → ℕ × List Port
  endpoint ref = (ref.block, ref.ports)

  Grows-refl : (blocks : List (Block R)) → Grows blocks blocks
  Grows-refl blocks k b at = (b, at, λ side. (refl, omega arith, λ j. refl))

  Grows-trans :
      (blocks blocks' blocks'' : List (Block R))
      → Grows blocks blocks'
      → Grows blocks' blocks''
      → Grows blocks blocks''
  Grows-trans blocks blocks' blocks'' first second k b at =
      let (b', at', grows) = first k b at in
      let (b'', at'', grows') = second k b' at' in
      (
        b'',
        at'',
        λ side.
            let (names, size, same) = grows side in
            let (names', size', same') = grows' side in
            (names' ∙ names, omega (arith, size, size'), λ j. same' j ∙ same j),
      )

  resize-RegisterGrows : (r : Register R) (n : ℕ) → RegisterGrows r (resize R r n)
  unfolding resize
  resize-RegisterGrows r n = (
    (resize_lem R r n 0).2,
    elim (Bool-cases (ltb (length r.values) n)) [
      | inl short ↦
          let lt = ltb→lt (length r.values) n short in
          let enough = (resize_lem R r n 0).1 in omega (arith, lt, enough)
      | inr long ↦ rw long (omega arith)
    ],
    λ j. get_single_lem R (resize R r n) j ∙ (resize_lem R r n j).0 ∙ sym (get_single_lem R r j),
  )

  with_register-BlockGrows :
      (side : Side) (b : Block R) (r : Register R)
      → RegisterGrows (register R side b) r
      → BlockGrows b (with_register R side r b)
  unfolding register with_register
  with_register-BlockGrows Side.input b r grows Side.input = grows
  with_register-BlockGrows Side.input b r grows Side.output = (refl, omega arith, λ j. refl)
  with_register-BlockGrows Side.output b r grows Side.input = (refl, omega arith, λ j. refl)
  with_register-BlockGrows Side.output b r grows Side.output = grows

  set-Grows :
      (blocks : List (Block R)) (k : ℕ) (b b' : Block R)
      → get_elem? blocks k ≡ some b
      → BlockGrows b b'
      → Grows blocks (set blocks k b')
  set-Grows blocks k b b' at grows j c here = elim (Bool-cases (k == j)) [
    | inl same ↦
        let e = (==_iff k j).0 same in
        let b≡c : b ≡ c = some-inj (sym at ∙ ap (get_elem? blocks) e ∙ here) in
        (
          b',
          subst (λ i. get_elem? (set blocks k b') i ≡ some b') e
              (get_elem?-set_self blocks k b' (lt-length blocks k at)),
          subst (λ d. BlockGrows d b') b≡c grows,
        )
    | inr other ↦ (
      c,
      get_elem?-set_ne blocks k j b' (λ e. let same = (==_iff k j).1 e in cc) ∙ here,
      λ side. (refl, omega arith, λ i. refl),
    )
  ]

  -- The indices depend on the names only.
  port_index-mapping :
      (side : Side) (r r' : Register R) (p : Port)
      → r'.mapping ≡ r.mapping
      → port_index R side r' p ≡ port_index R side r p
  unfolding port_index
  port_index-mapping side r r' (Port.index i) e = refl
  port_index-mapping side r r' (Port.name key) e =
      let same : r'.mapping key ≡ r.mapping key = ap (λ m. m key) e in rw (same, port_index) refl

  port_indices-mapping :
      (side : Side) (r r' : Register R) (ports : List Port)
      → r'.mapping ≡ r.mapping
      → port_indices R side r' ports ≡ port_indices R side r ports
  unfolding port_indices
  port_indices-mapping side r r' [] e = refl
  port_indices-mapping side r r' (p ∷ ps) e =
      ap₂ push_index (port_index-mapping side r r' p e) (port_indices-mapping side r r' ps e)

  Grows-IsResolvable :
      (side : Side) (blocks blocks' : List (Block R)) (ref : PortReference)
      → Grows blocks blocks'
      → IsResolvable side blocks ref
      → IsResolvable side blocks' ref
  Grows-IsResolvable side blocks blocks' ref grows (b, i, is, at, known, fresh) =
      let (b', at', grown) = grows ref.block b at in
      (
        b',
        i,
        is,
        at',
        port_indices-mapping side (register R side b) (register R side b') ref.ports (grown side).0
            ∙ known,
        fresh,
      )

  Grows-Resolves :
      (side : Side) (blocks blocks' : List (Block R)) (ref : PortReference) (is : List ℕ)
      → Grows blocks blocks'
      → Resolves side blocks ref is
      → Resolves side blocks' ref is
  Grows-Resolves side blocks blocks' ref is grows (b, at, known, cached, inside) =
      let (b', at', grown) = grows ref.block b at in
      let size = (grown side).1 in
      (
        b',
        at',
        port_indices-mapping side (register R side b) (register R side b') ref.ports (grown side).0
            ∙ known,
        cached,
        All-map (λ i lt. omega (arith, lt, size)) is inside,
      )

  with_cache_lem :
      (side : Side) (is : List ℕ) (ref : PortReference)
      → (cache side (with_cache side is ref) ≡ some is)
        × ((with_cache side is ref).block ≡ ref.block)
        × ((with_cache side is ref).ports ≡ ref.ports)
  unfolding cache with_cache
  with_cache_lem Side.input is ref = (refl, refl, refl)
  with_cache_lem Side.output is ref = (refl, refl, refl)

  register-with_register :
      (side : Side) (r : Register R) (b : Block R) → register R side (with_register R side r b) ≡ r
  unfolding register with_register
  register-with_register Side.input r b = refl
  register-with_register Side.output r b = refl

  resolve_indices-Resolves :
      (side : Side) (blocks : List (Block R)) (ref : PortReference)
      → IsResolvable side blocks ref
      → (r : Resolved R) × (resolve_indices R side blocks ref ≡ some (inr r))
        × Resolves side r.blocks r.reference r.indices
        × Grows blocks r.blocks
        × (r.reference ≡ with_cache side r.indices ref)
  unfolding grow_register resolve_indices resolve_in
  resolve_indices-Resolves side blocks ref (b, i, is, at, known, fresh) =
      let indices = i ∷ is in
      let r = register R side b in
      let r' = resize R r (size_for indices) in
      let grown = resize-RegisterGrows r (size_for indices) in
      let b' = with_register R side r' b in
      let (cached, home, ports) = with_cache_lem side indices ref in
      let here = get_elem?-set_self blocks ref.block b' (lt-length blocks ref.block at) in
      (
        record {
          blocks = set blocks ref.block b';
          reference = with_cache side indices ref;
          indices = indices;
        },
        rw (fresh, at, known, resolve_indices, resolve_in) refl,
        (
          b',
          ap (get_elem? (set blocks ref.block b')) home ∙ here,
          ap (port_indices R side (register R side b')) ports
              ∙ port_indices-mapping side r (register R side b') ref.ports
                  (ap (λ s. s.mapping) (register-with_register side r' b) ∙ grown.0)
              ∙ known,
          cached,
          subst (λ s. InRange R s indices) (sym (register-with_register side r' b))
              (size_for-lt indices (length r'.values) (resize_lem R r (size_for indices) 0).1),
        ),
        set-Grows blocks ref.block b b' at (with_register-BlockGrows side b r' grown),
        refl,
      )

  Resolves-own :
      (blocks : List (Block R)) (trg : PortReference) (is : List ℕ)
      → Resolves Side.input blocks trg is
      → ResolvesOwn blocks trg
  unfolding cache indices_or_none
  Resolves-own blocks trg is (b, at, known, cached, inside) =
      let own : indices_or_none trg.input_indices ≡ is = ap indices_or_none cached in
      subst (Resolves Side.input blocks trg) (sym own) (b, at, known, cached, inside)

  endpoint-with_cache :
      (side : Side) (is : List ℕ) (ref : PortReference)
      → endpoint (with_cache side is ref) ≡ endpoint ref
  endpoint-with_cache side is ref =
      let (_, home, ports) = with_cache_lem side is ref in ap₂ (λ b ps. (b, ps)) home ports

  -- Every target in turn, while the store grows.
  resolve_targets-Resolves :
      (targets : List PortReference) (blocks : List (Block R))
      → All (IsResolvable Side.input blocks) targets
      → (r : Targets R) × (resolve_targets R blocks targets ≡ some r)
        × (r.error ≡ none)
        × All (ResolvesOwn r.blocks) r.targets
        × Grows blocks r.blocks
        × (map endpoint r.targets ≡ map endpoint targets)
  unfolding resolve_targets
  resolve_targets-Resolves [] blocks h = (
    record { blocks = blocks; targets = []; error = none },
    refl,
    refl,
    tt,
    Grows-refl blocks,
    refl,
  )
  resolve_targets-Resolves (trg ∷ targets) blocks h =
      let (r, runs, done, grows, is_ref) = resolve_indices-Resolves Side.input blocks trg h.0 in
      let (rest, runs', fine, done', grows', kept) =
        resolve_targets-Resolves targets r.blocks
          (All-map (λ t. Grows-IsResolvable Side.input blocks r.blocks t grows) targets h.1) in
      (
        record rest { targets = r.reference ∷ rest.targets },
        rw (runs, runs') refl,
        fine,
        (
          Resolves-own rest.blocks r.reference r.indices
              (Grows-Resolves Side.input r.blocks rest.blocks r.reference r.indices grows' done),
          done',
        ),
        Grows-trans blocks r.blocks rest.blocks grows grows',
        ap₂ (λ e es. e ∷ es) (ap endpoint is_ref ∙ endpoint-with_cache Side.input r.indices trg)
            kept,
      )

  -- A connection none of whose references has resolved its ports, each with a port, and whose names
  -- the blocks have: resolving reports no error and does not panic; it leaves a connection with the
  -- same blocks and ports, source and targets in order, as active as before; every reference keeps
  -- the indices of its ports and its register has them; and registers keep their values and names
  -- and grow by zeros only.
  pub resolve_ports-Resolves :
      (blocks : List (Block R)) (c : Connection)
      → IsResolvable Side.output blocks c.source
      → All (IsResolvable Side.input blocks) c.targets
      → (blocks' : List (Block R)) × (c' : Connection) × (is : List ℕ) × (resolve_ports R blocks c
          ≡ some (blocks', c', none))
        × (endpoint c'.source ≡ endpoint c.source)
        × (map endpoint c'.targets ≡ map endpoint c.targets)
        × (c'.active ≡ c.active)
        × Resolves Side.output blocks' c'.source is
        × All (ResolvesOwn blocks') c'.targets
        × Grows blocks blocks'
  unfolding resolve_ports
  resolve_ports-Resolves blocks c known h =
      let (r, runs, done, grows, is_ref) =
        resolve_indices-Resolves Side.output blocks c.source known in
      let (t, runs', fine, done', grows', kept) =
        resolve_targets-Resolves c.targets r.blocks
          (All-map (λ trg. Grows-IsResolvable Side.input blocks r.blocks trg grows) c.targets h) in
      (
        t.blocks,
        record c { source = r.reference; targets = t.targets },
        r.indices,
        rw (runs, runs', fine) refl,
        ap endpoint is_ref ∙ endpoint-with_cache Side.output r.indices c.source,
        kept,
        refl,
        Grows-Resolves Side.output r.blocks t.blocks r.reference r.indices grows' done,
        done',
        Grows-trans blocks r.blocks t.blocks grows grows',
      )

  -- A connection that is active, none of whose references has resolved its ports, each with a port,
  -- and whose names the blocks have: resolving reports no error and leaves a connection with the
  -- same blocks and ports, source and targets in order, each target with the indices of its ports.
  -- An update then does not panic, leaves the connection as it is, and gives each target in turn the
  -- values at the ports of the source.
  pub resolve_ports-update :
      (blocks : List (Block R)) (c : Connection)
      → IsResolvable Side.output blocks c.source
      → All (IsResolvable Side.input blocks) c.targets
      → c.active ≡ true
      → (blocks' : List (Block R)) × (c' : Connection) × (is : List ℕ) × (b : Block R)
        × (resolve_ports R blocks c ≡ some (blocks', c', none))
        × (endpoint c'.source ≡ endpoint c.source)
        × (map endpoint c'.targets ≡ map endpoint c.targets)
        × All (ResolvesOwn blocks') c'.targets
        × (get_elem? blocks' c'.source.block ≡ some b)
        × (port_indices R Side.output b.outputs c'.source.ports ≡ inr is)
        × (update R blocks' c'
            ≡ some (broadcast R blocks' (get_indices R b.outputs is) c'.targets, c'))
  unfolding register
  resolve_ports-update blocks c known h on =
      let (blocks', c', is, runs, source, targets, active, (b, at, same, cached, inside), done, _) =
        resolve_ports-Resolves blocks c known h in
      (
        blocks',
        c',
        is,
        b,
        runs,
        source,
        targets,
        done,
        at,
        same,
        update-broadcast R blocks' c' is (b, at, cached, inside)
            (All-map (λ trg d. (d.0, d.1, d.3, d.4)) c'.targets done) (active ∙ on),
      )
