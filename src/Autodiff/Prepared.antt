-- ===== src/Autodiff/Prepared.antt =====
-- ssa/autodiff.rs: how the code of `diff_node` leads from derivatives of the operands to that of a node.
use fastsim.Common.{
  ℕ, ◌≤◌, ◌<◌, ◌^◌, ◌≡◌, refl, ap, ◌∙◌, true, List, [], ◌∷◌, ◌++◌, Option, some, ◌>>=◌, length,
  get_elem?, if◌then◌else◌, arith,
}
use mathlib.Core.List.{append_assoc}
use fastsim.F64.{F64, zero_f}
use fastsim.F64.Laws.{IeeeLaws}
use fastsim.Op.Apply.{apply_binary}
use fastsim.Graph.Node.{Node, NodeId}
use fastsim.Graph.Build.{Graph, constant, select}
use fastsim.Graph.Eval.{Env, eval_nodes}
use fastsim.Graph.HashCons.{IsHashConsed}
use fastsim.Autodiff.Rules.{Call, fma_rule, run_rule, node_of}
use fastsim.Autodiff.Diff.{Memo, memo_get, Diff, finish}
use fastsim.Autodiff.RunSound.{
  Extends, Extends-refl, Extends-trans, Extends-length, Extends-run_rule, Later, Holds, Holds-Later,
  rule_value, call_value, all_scoped, is_scoped, IsReady, rule_sound,
}

pub Holds-append :
    {A : Type 0} (vs : List A) (ids : List NodeId) (xs : List A) (id : NodeId) (y : A)
    → Holds vs ids xs
    → get_elem? vs id ≡ some y
    → Holds vs (ids ++ id ∷ []) (xs ++ y ∷ [])
Holds-append vs [] [] id y h e = (e, tt)
Holds-append vs [] (x ∷ xs) id y h e = elim h [ ]
Holds-append vs (i ∷ ids) [] id y h e = elim h [ ]
Holds-append vs (i ∷ ids) (x ∷ xs) id y h e = (h.0, Holds-append vs ids xs id y h.1 e)

module _ (R : F64) (env : Env R) (ieee : IeeeLaws R) (nodes : List Node) (x t : NodeId → R.F) where
  -- The graph has the values `vs`, the old nodes among them, and the memo has derivatives.
  pub record State (g : Graph R) (vs : List R.F) (memo : Memo) : Type 0 where
    pub well_formed : IsHashConsed g
    pub runs : eval_nodes R env [] g.nodes ≡ some vs
    pub base : (i : ℕ) → i < length nodes → get_elem? vs i ≡ some (x i)
    pub kept : (k : ℕ) (id : NodeId) → memo_get k memo ≡ some id → get_elem? vs id ≡ some (t k)

  -- Code that leads from one state to another one that has the nodes `ids` with the values `ys`, if it
  -- has room for its nodes.
  pub record Prepares (g : Graph R) (memo : Memo) (g' : Graph R) (memo' : Memo) (ids : List NodeId)
      (ys : List R.F) : Type 0 where
    pub grows : Extends g g'
    pub gives :
        length g'.nodes < 2 ^ 32
        → (vs : List R.F) → State g vs memo
        → (vs' : List R.F) × Later vs vs' × State g' vs' memo' × Holds vs' ids ys

  abbrev pub Outcome : Graph R → Memo → Diff R → R.F → Type 0
  Outcome g memo r v = Prepares g memo r.graph r.memo (r.id ∷ []) (v ∷ [])

  abbrev pub Finds : Graph R → Memo → Option (Diff R) → R.F → Type 0
  Finds g memo result v = (r : Diff R) × (result ≡ some r) × Outcome g memo r v

  pub nothing : (g : Graph R) (memo : Memo) → Prepares g memo g memo [] []
  nothing g memo = record {
    grows = Extends-refl R g;
    gives = λ room vs st. (vs, λ i y e. e, st, tt);
  }

  module _ (g : Graph R) (memo : Memo) (g1 : Graph R) (memo1 : Memo) (ids : List NodeId)
      (ys : List R.F) (p : Prepares g memo g1 memo1 ids ys) where
    -- The operand, which has a value.
    pub with_operand :
        (a : NodeId) → a < length nodes → Prepares g memo g1 memo1 (ids ++ a ∷ []) (ys ++ x a ∷ [])
    with_operand a lt = record {
      grows = p.grows;
      gives = λ room vs st.
          let (vs', later, st', holds) = p.gives room vs st in
          (vs', later, st', Holds-append vs' ids ys a (x a) holds (st'.base a lt));
    }

    -- The derivative of an operand.
    pub with_derivative :
        (r : Diff R) (v : R.F)
        → Outcome g1 memo1 r v
        → Prepares g memo r.graph r.memo (ids ++ r.id ∷ []) (ys ++ v ∷ [])
    with_derivative r v o = record {
      grows = Extends-trans R g g1 r.graph p.grows o.grows;
      gives = λ room vs st.
          let (vs', later, st', holds) =
            p.gives (omega (arith, room, Extends-length R g1 r.graph o.grows)) vs st in
          let (vs'', later', st'', holds') = o.gives room vs' st' in
          (
            vs'',
            λ i y e. later' i y (later i y e),
            st'',
            Holds-append vs'' ids ys r.id v (Holds-Later vs' vs'' ids ys later' holds) holds'.0,
          );
    }

    -- A rule over what is prepared.
    pub by_rule :
        (calls : List (Call R.F)) (v : R.F)
        → ((vs : List R.F) → IsReady vs 0 (zero_f R) calls)
        → all_scoped R (length ids) calls ≡ true
        → rule_value R calls ys (zero_f R) ≡ v
        → Outcome g memo (finish R memo1 (run_rule R calls ids g1 0)) v
    unfolding finish
    by_rule calls v is_ready scoped e =
        let r = run_rule R calls ids g1 0 in
        let more = Extends-run_rule R calls ids g1 0 in
        record {
          grows = Extends-trans R g g1 r.0 p.grows more;
          gives = λ room vs st.
              let (vs', later, st', holds) =
                p.gives (omega (arith, room, Extends-length R g1 r.0 more)) vs st in
              let done =
                rule_sound R env ieee calls ids ys g1 vs' 0 (zero_f R) st'.well_formed room st'.runs
                  holds scoped (is_ready vs') in
              (
                done.values,
                λ i y p. done.later i y (later i y p),
                record {
                  well_formed = done.well_formed;
                  runs = done.runs;
                  base = λ i lt. done.later i (x i) (st'.base i lt);
                  kept = λ k id m. done.later id (t k) (st'.kept k id m);
                },
                (done.value ∙ ap some e, tt),
              );
        }

  -- The derivatives of the nodes below `bound` are found.
  abbrev pub FindsBelow : (Graph R → Memo → NodeId → Option (Diff R)) → ℕ → Type 0
  FindsBelow diff bound =
      (g : Graph R) (memo : Memo) (c : NodeId)
      → (more : List Node) → g.nodes ≡ nodes ++ more
      → c < bound
      → Finds g memo (diff g memo c) (t c)

  module _ (diff : Graph R → Memo → NodeId → Option (Diff R)) (bound : ℕ)
      (bound_in : bound ≤ length nodes) (found : FindsBelow diff bound) (g : Graph R) (memo : Memo)
      (more : List Node) (extended : g.nodes ≡ nodes ++ more) where
    pub constant-Finds : (v : R.F) → Finds g memo (some (finish R memo (constant R g v))) v
    unfolding constant run_rule rule_value call_value all_scoped is_scoped node_of
    constant-Finds v = (
      finish R memo (constant R g v),
      refl,
      by_rule g memo g memo [] [] (nothing g memo) (Call.constant v ∷ []) v (λ vs. tt) refl refl,
    )

    -- One more derivative.
    pub next :
        (g1 : Graph R) (memo1 : Memo) (ids : List NodeId) (ys : List R.F)
        → Prepares g memo g1 memo1 ids ys
        → (a : NodeId) → a < bound
        → (r : Diff R) × (diff g1 memo1 a ≡ some r)
          × Prepares g memo r.graph r.memo (ids ++ r.id ∷ []) (ys ++ t a ∷ [])
    next g1 memo1 ids ys p a lt =
        let (new, e) = p.grows in
        let (r, runs, o) =
          found g1 memo1 a (more ++ new)
            (e ∙ ap (λ l. l ++ new) extended ∙ append_assoc nodes more new) lt in
        (r, runs, with_derivative g memo g1 memo1 ids ys p r (t a) o)

    -- An operand and its derivative.
    pub next_pair :
        (g1 : Graph R) (memo1 : Memo) (ids : List NodeId) (ys : List R.F)
        → Prepares g memo g1 memo1 ids ys
        → (a : NodeId) → a < bound
        → (r : Diff R) × (diff g1 memo1 a ≡ some r)
          × Prepares g memo r.graph r.memo
              ((ids ++ a ∷ []) ++ r.id ∷ [])
              ((ys ++ x a ∷ []) ++ t a ∷ [])
    next_pair g1 memo1 ids ys p a lt =
        next g1 memo1 (ids ++ a ∷ []) (ys ++ x a ∷ [])
          (with_operand g memo g1 memo1 ids ys p a (omega (arith, lt, bound_in))) a lt

    pub unary-Finds :
        (calls : List (Call R.F)) (v : R.F) (a : NodeId)
        → a < bound
        → ((vs : List R.F) → IsReady vs 0 (zero_f R) calls)
        → all_scoped R 2 calls ≡ true
        → rule_value R calls (x a ∷ t a ∷ []) (zero_f R) ≡ v
        → Finds g memo
            (do
              da ← diff g memo a
              some (finish R da.memo (run_rule R calls (a ∷ da.id ∷ []) da.graph 0)))
            v
    unary-Finds calls v a lt is_ready scoped e =
        let (da, runs, p) = next_pair g memo [] [] (nothing g memo) a lt in
        (
          finish R da.memo (run_rule R calls (a ∷ da.id ∷ []) da.graph 0),
          rw runs refl,
          by_rule g memo da.graph da.memo (a ∷ da.id ∷ []) (x a ∷ t a ∷ []) p calls v is_ready
              scoped e,
        )

    pub binary-Finds :
        (calls : List (Call R.F)) (v : R.F) (a b : NodeId)
        → a < bound
        → b < bound
        → ((vs : List R.F) → IsReady vs 0 (zero_f R) calls)
        → all_scoped R 4 calls ≡ true
        → rule_value R calls (x a ∷ t a ∷ x b ∷ t b ∷ []) (zero_f R) ≡ v
        → Finds g memo
            (do
              da ← diff g memo a
              db ← diff da.graph da.memo b
              some (finish R db.memo (run_rule R calls (a ∷ da.id ∷ b ∷ db.id ∷ []) db.graph 0)))
            v
    binary-Finds calls v a b lt lt' is_ready scoped e =
        let (da, runs, p) = next_pair g memo [] [] (nothing g memo) a lt in
        let (db, runs', q) = next_pair da.graph da.memo (a ∷ da.id ∷ []) (x a ∷ t a ∷ []) p b lt' in
        (
          finish R db.memo (run_rule R calls (a ∷ da.id ∷ b ∷ db.id ∷ []) db.graph 0),
          rw (runs, runs') refl,
          by_rule g memo db.graph db.memo (a ∷ da.id ∷ b ∷ db.id ∷ []) (x a ∷ t a ∷ x b ∷ t b ∷ [])
              q calls v is_ready scoped e,
        )

    pub select-Finds :
        (c a b : NodeId)
        → c < bound
        → a < bound
        → b < bound
        → Finds g memo
            (do
              da ← diff g memo a
              db ← diff da.graph da.memo b
              some (finish R db.memo (select R db.graph c da.id db.id)))
            (if R.eq (x c) (zero_f R) then t b else t a)
    unfolding select run_rule rule_value call_value all_scoped is_scoped node_of
    select-Finds c a b ltc lt lt' =
        let p0 =
          with_operand g memo g memo [] [] (nothing g memo) c (omega (arith, ltc, bound_in)) in
        let (da, runs, p) = next g memo (c ∷ []) (x c ∷ []) p0 a lt in
        let (db, runs', q) = next da.graph da.memo (c ∷ da.id ∷ []) (x c ∷ t a ∷ []) p b lt' in
        (
          finish R db.memo (select R db.graph c da.id db.id),
          rw (runs, runs') refl,
          by_rule g memo db.graph db.memo (c ∷ da.id ∷ db.id ∷ []) (x c ∷ t a ∷ t b ∷ []) q
              (Call.select 0 1 2 ∷ []) (if R.eq (x c) (zero_f R) then t b else t a) (λ vs. tt) refl
              refl,
        )

    pub fma-Finds :
        (a b c : NodeId)
        → a < bound
        → b < bound
        → c < bound
        → Finds g memo
            (do
              da ← diff g memo a
              db ← diff da.graph da.memo b
              dc ← diff db.graph db.memo c
              some (
                  finish R dc.memo
                    (run_rule R (fma_rule R) (a ∷ da.id ∷ b ∷ db.id ∷ dc.id ∷ []) dc.graph 0)))
            (R.add (R.add (R.mul (x a) (t b)) (R.mul (x b) (t a))) (t c))
    unfolding fma_rule rule_value call_value all_scoped is_scoped apply_binary
    fma-Finds a b c lt lt' lt'' =
        let (da, runs, p) = next_pair g memo [] [] (nothing g memo) a lt in
        let (db, runs', q) = next_pair da.graph da.memo (a ∷ da.id ∷ []) (x a ∷ t a ∷ []) p b lt' in
        let (dc, runs'', s) =
          next db.graph db.memo (a ∷ da.id ∷ b ∷ db.id ∷ []) (x a ∷ t a ∷ x b ∷ t b ∷ []) q c
            lt'' in
        (
          finish R dc.memo
              (run_rule R (fma_rule R) (a ∷ da.id ∷ b ∷ db.id ∷ dc.id ∷ []) dc.graph 0),
          rw (runs, runs', runs'') refl,
          by_rule g memo dc.graph dc.memo (a ∷ da.id ∷ b ∷ db.id ∷ dc.id ∷ [])
              (x a ∷ t a ∷ x b ∷ t b ∷ t c ∷ []) s (fma_rule R)
              (R.add (R.add (R.mul (x a) (t b)) (R.mul (x b) (t a))) (t c)) (λ vs. tt) refl refl,
        )
