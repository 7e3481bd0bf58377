-- ===== src/Tests/ConnectionTests.antt =====
-- The theorems about connections at a source that feeds another block and itself.
use fastsim.Common.{
  ◌≡◌, refl, true, false, [], ◌∷◌, none, some, All, get_elem?, map, inr, ℕ, List, arith,
}
use fastsim.Utils.Register.{get_indices}
use fastsim.Utils.PortReference.{
  Port, PortReference, Block, Side, cache, register, port_index, port_indices,
}
use fastsim.Connection.{Connection, update, resolve_ports}
use fastsim.Connection.Update.{indices_or_none, broadcast, update-broadcast}
use fastsim.Connection.Resolve.{
  Resolves, ResolvesOwn, Grows, endpoint, resolve_ports-Resolves, resolve_ports-update,
}
use fastsim.Tests.Parity.{parity}

abbrev source_block : Block parity
source_block = record {
  inputs = record { values = false ∷ []; mapping = λ key. some 1 };
  outputs = record { values = true ∷ []; mapping = λ key. none };
}

abbrev sink_block : Block parity
sink_block = record {
  inputs = record { values = false ∷ []; mapping = λ key. none };
  outputs = record { values = false ∷ []; mapping = λ key. none };
}

abbrev store : List (Block parity)
store = source_block ∷ sink_block ∷ []

abbrev fresh : ℕ → Port → PortReference
fresh block p = record {
  block = block;
  ports = p ∷ [];
  input_indices = none;
  output_indices = none;
}

abbrev wire : Connection
wire = record {
  source = fresh 0 (Port.index 0);
  targets = fresh 1 (Port.index 2) ∷ fresh 0 (Port.name "feedback") ∷ [];
  active = true;
}

resolve_ports-Resolves_example :
    (blocks' : List (Block parity)) × (c' : Connection) × (is : List ℕ) × (resolve_ports parity
        store wire
      ≡ some (blocks', c', none))
    × (endpoint parity c'.source ≡ endpoint parity wire.source)
    × (map (endpoint parity) c'.targets ≡ map (endpoint parity) wire.targets)
    × (c'.active ≡ wire.active)
    × Resolves parity Side.output blocks' c'.source is
    × All (ResolvesOwn parity blocks') c'.targets
    × Grows parity store blocks'
unfolding port_indices port_index cache register
resolve_ports-Resolves_example =
    resolve_ports-Resolves parity store wire (source_block, 0, [], refl, refl, refl)
      ((sink_block, 2, [], refl, refl, refl), ((source_block, 1, [], refl, refl, refl), tt))

resolve_ports-update_example :
    (blocks' : List (Block parity)) × (c' : Connection) × (is : List ℕ) × (b : Block parity)
    × (resolve_ports parity store wire ≡ some (blocks', c', none))
    × (endpoint parity c'.source ≡ endpoint parity wire.source)
    × (map (endpoint parity) c'.targets ≡ map (endpoint parity) wire.targets)
    × All (ResolvesOwn parity blocks') c'.targets
    × (get_elem? blocks' c'.source.block ≡ some b)
    × (port_indices parity Side.output b.outputs c'.source.ports ≡ inr is)
    × (update parity blocks' c'
        ≡ some (broadcast parity blocks' (get_indices parity b.outputs is) c'.targets, c'))
unfolding port_indices port_index cache register
resolve_ports-update_example =
    resolve_ports-update parity store wire (source_block, 0, [], refl, refl, refl)
      ((sink_block, 2, [], refl, refl, refl), ((source_block, 1, [], refl, refl, refl), tt)) refl

-- Both references to block 0 and the one to block 1 are resolved.
abbrev wired : Connection
wired = record {
  source = record {
    block = 0;
    ports = Port.index 0 ∷ [];
    input_indices = none;
    output_indices = some (0 ∷ []);
  };
  targets =
      record {
        block = 1;
        ports = Port.index 0 ∷ [];
        input_indices = some (0 ∷ []);
        output_indices = none;
      }
      ∷ record {
        block = 0;
        ports = Port.index 0 ∷ [];
        input_indices = some (0 ∷ []);
        output_indices = none;
      }
      ∷ [];
  active = true;
}

update-broadcast_example :
    update parity store wired
    ≡ some (
      broadcast parity store (get_indices parity source_block.outputs (0 ∷ [])) wired.targets,
      wired,
    )
unfolding cache register indices_or_none
update-broadcast_example =
    update-broadcast parity store wired (0 ∷ []) (source_block, refl, refl, (omega arith, tt))
      (
        (sink_block, refl, refl, (omega arith, tt)),
        ((source_block, refl, refl, (omega arith, tt)), tt),
      )
      refl
