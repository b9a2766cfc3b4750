-- ===== src/Node/Constructed.antt =====
-- The node as its constructor leaves it.
use mathlib.Core.Path.{subst}
use legio.Prelude.{
  ℕ, suc, ◌≡◌, refl, Option, Result, ok, ap, ◌∙◌, Bool, true, Result-cases, inl, inr, sym,
}
use legio.Crypto.{CryptoPp, CryptoLaws}
use legio.State.Codec.{IsStrictOrder}
use legio.Server.{Services, Configuration, Server}
use legio.Graph.World.{World, Outcome, returned, thrown}
use legio.Graph.Updates.Started.{start_graph-IsReady}
use legio.Node.Dispatch.{Platform, NodeState}
use legio.Node.Life.{construct_node, construct_server, first_node, after_graph}
use legio.Node.Steps.{IsRunning}

module _ (c : CryptoPp) (laws : CryptoLaws c) (order : IsStrictOrder c.point_lt) (p : Platform c)
    (Program : Type 0) (pair : c.PrivateKey) where
  open c use {Point, same_point, EcdhKey}

  abbrev Node : Type 0
  Node = NodeState c p Program

  abbrev Running : Node → Type 0
  Running n = IsRunning c laws order p Program pair n

  -- The constructor returns if that of the server does, with one round of announcements, and leaves
  -- a node whose transports have their types and whose graph is ready; it throws what the server
  -- throws.
  pub construct_node-IsRunning :
      (lib : Services) (config : Configuration) (rounds : ℕ) (ecdh : EcdhKey)
      (signaling_number user_number : ℕ) (program : Program) (server : Option Server)
      → construct_server lib config ≡ ok server
      → (n : Node) × (construct_node c p Program pair lib config
            (suc rounds)
            ecdh
            signaling_number
            user_number
            program
          ≡ returned (n, server))
        × IsRunning c laws order p Program pair n
  unfolding construct_node first_node
  construct_node-IsRunning lib config rounds ecdh signaling_number user_number program server h =
      let (w, run, ready, alone) =
        start_graph-IsReady c laws order p.byte_order pair p.channels p.entropy p.address_lt rounds
          ecdh in
      let make = first_node c p Program pair signaling_number user_number program in
      (
        make w,
        ap
              (λ (x : World c × Outcome Bool).
                after_graph c p Program pair (construct_server lib config) make x)
              run
            ∙ ap
                (λ (s : Result (Option Server)).
                  after_graph c p Program pair s make (w, returned true))
                h,
        record { wired = record { signaling_typed = refl; user_typed = refl }; ready = ready },
      )

  -- The node that the constructor returns.
  pub constructed_node :
      (lib : Services) (config : Configuration) (rounds : ℕ) (ecdh : EcdhKey)
      (signaling_number user_number : ℕ) (program : Program) (n : Node) (server : Option Server)
      → construct_node c p Program pair lib config
          (suc rounds)
          ecdh
          signaling_number
          user_number
          program
        ≡ returned (n, server)
      → Running n
  unfolding construct_node
  constructed_node lib config rounds ecdh signaling_number user_number program n server h =
      elim (Result-cases (construct_server lib config)) [
        | inl (x, q) ↦
            let (w, run, ready, alone) =
              start_graph-IsReady c laws order p.byte_order pair p.channels p.entropy p.address_lt
                rounds ecdh in
            let make = first_node c p Program pair signaling_number user_number program in
            let thrown_out : thrown x ≡ returned (n, server) =
              sym (
                ap
                  (λ (y : World c × Outcome Bool).
                    after_graph c p Program pair (construct_server lib config) make y)
                  run
                ∙ ap
                    (λ (s : Result (Option Server)).
                      after_graph c p Program pair s make (w, returned true))
                    q)
              ∙ h in
            cc thrown_out
        | inr (s, q) ↦
            let (n0, run, r) =
              construct_node-IsRunning lib config rounds ecdh signaling_number user_number program s
                q in
            let a : Node × Option Server = (n0, s) in
            let b : Node × Option Server = (n, server) in
            let e : returned a ≡ returned b = sym run ∙ h in
            let e' : a ≡ b = cc e in
            let same : n0 ≡ n = ap (λ (y : Node × Option Server). y.0) e' in subst Running same r
      ]
