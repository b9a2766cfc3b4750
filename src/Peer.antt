-- ===== src/Peer.antt =====
-- src/peer/main.cpp, built for a machine with threads: a program that runs one node until it throws.
-- Its output, and the time that it sleeps, are left out.
use legio.Prelude.{refl, ℕ, zero, suc, ◌≡◌, ◌≢◌, List, [], ◌∷◌, Option, none, some}
use legio.Crypto.{CryptoPp}
use legio.Routing.{Channel}
use legio.Server.{Services, Configuration, Server}
use legio.Graph.World.{Outcome, returned, thrown, undefined, unfinished}
use legio.Node.Dispatch.{Platform, NodeState, Ran, Run, followed_by}
use legio.Node.Life.{construct_node, update_node}
use legio.Node.Connecting.{connect_node}

-- `struct Configuration` as it is without any change.
abbrev pub default_values : Configuration
default_values = record {
  port = some 8080;
  external_host = none;
  external_port = none;
  tls_pem_certificate = none;
  tls_pem_key = none;
  dummy_tls_service = some (
      b'l' ∷ b'e' ∷ b'g' ∷ b'i' ∷ b'o' ∷ b'-' ∷ b'p' ∷ b'2' ∷ b'p' ∷ b'.' ∷ b'n' ∷ b'e' ∷ b't'
      ∷ []);
}

-- `config`, for the arguments behind the program's name
unfoldable pub configured : List (List ℕ) → Configuration
configured [] = record default_values { port = some 8080 }
configured (url ∷ arguments) = record default_values { port = some 0 }

module _ (c : CryptoPp) (p : Platform c) (Program : Type 0) (pair : c.PrivateKey) where
  open c use {Point, EcdhKey}

  abbrev Node : Type 0
  Node = NodeState c p Program

  -- `void loop()`, of which `turns` turns are looked at; `turn` is `node->update()` in the one turn.
  unfoldable pub loop : (ℕ → Run c p Program pair) → ℕ → Run c p Program pair
  loop turn zero n = (n, unfinished)
  loop turn (suc turns) n = followed_by c p Program pair (loop turn turns) (turn turns n)

  -- `node->connect(url)` for the first argument
  unfoldable pub connect_first_argument : (ℕ → Channel) → ℕ → List (List ℕ) → Run c p Program pair
  unfolding connect_node
  connect_first_argument fresh rounds [] n = (n, returned tt)
  connect_first_argument fresh rounds (url ∷ arguments) n =
      connect_node c p Program pair fresh rounds url n

  -- What `main` returns, with its `catch`.
  abbrev pub exit_code : Outcome (Unit {0}) → Outcome ℕ
  exit_code (returned done) = returned 0
  exit_code (thrown x) = returned 1
  exit_code undefined = undefined
  exit_code unfinished = unfinished

  abbrev pub run_node : Run c p Program pair → Outcome (Node × Option Server) → Outcome ℕ
  run_node rest (returned (n, server)) = exit_code (rest n).1
  run_node rest (thrown x) = returned 1
  run_node rest undefined = undefined
  run_node rest unfinished = unfinished

  -- `int main(int argc, char *argv[])`; `run` is `scheduler->run()` and `shuffle` the shuffle in a turn.
  unfoldable pub main :
      Services
      → ℕ
      → EcdhKey
      → (ℕ → Channel)
      → (ℕ → Run c p Program pair)
      → (ℕ → List Point → List Point)
      → ℕ
      → ℕ
      → Program
      → List (List ℕ)
      → ℕ
      → Outcome ℕ
  unfolding configured loop connect_first_argument
  main lib rounds ecdh fresh run shuffle signaling_number user_number program arguments turns =
      let turn = λ (k : ℕ). update_node c p Program pair (run k) fresh (shuffle k) in
      run_node
        (λ n.
          followed_by c p Program pair (loop turn turns)
            (connect_first_argument fresh rounds arguments n))
        (construct_node c p Program pair lib (configured arguments) rounds ecdh signaling_number
          user_number program)

  followed_by-endless :
      (next : Run c p Program pair) (x : Ran c p Program pair)
      → ((n : Node) → (next n).1 ≢ returned tt)
      → (followed_by c p Program pair next x).1 ≢ returned tt
  followed_by-endless next (n, returned done) h = h n
  followed_by-endless next (n, thrown x) h = λ e. cc e
  followed_by-endless next (n, undefined) h = λ e. cc e
  followed_by-endless next (n, unfinished) h = λ e. cc e

  loop-endless :
      (turn : ℕ → Run c p Program pair) (turns : ℕ) (n : Node) → (loop turn turns n).1 ≢ returned tt
  unfolding loop
  loop-endless turn zero n = λ e. cc e
  loop-endless turn (suc turns) n =
      followed_by-endless (loop turn turns) (turn turns n) (loop-endless turn turns)

  exit_code-1 :
      (o : Outcome (Unit {0})) (code : ℕ) → o ≢ returned tt → exit_code o ≡ returned code → code ≡ 1
  exit_code-1 (returned done) code h e = absurd (h refl)
  exit_code-1 (thrown x) code h e = cc e
  exit_code-1 undefined code h e = cc e
  exit_code-1 unfinished code h e = cc e

  -- The program ends only with an exception: whatever its arguments and however long it runs, the code
  -- that it returns, if it returns one, is 1.
  pub main-exit_code :
      (lib : Services) (rounds : ℕ) (ecdh : EcdhKey) (fresh : ℕ → Channel)
      (run : ℕ → Run c p Program pair) (shuffle : ℕ → List Point → List Point)
      (signaling_number user_number : ℕ) (program : Program) (arguments : List (List ℕ))
      (turns code : ℕ)
      → main lib rounds ecdh fresh run shuffle signaling_number user_number program arguments turns
        ≡ returned code
      → code ≡ 1
  unfolding main
  main-exit_code lib rounds ecdh fresh run shuffle signaling_number user_number program arguments
        turns code h =
      let turn = λ (k : ℕ). update_node c p Program pair (run k) fresh (shuffle k) in
      run_node-1
        (λ n.
          followed_by c p Program pair (loop turn turns)
            (connect_first_argument fresh rounds arguments n))
        (construct_node c p Program pair lib (configured arguments) rounds ecdh signaling_number
          user_number program)
        code
        (λ n.
          followed_by-endless (loop turn turns) (connect_first_argument fresh rounds arguments n)
            (loop-endless turn turns))
        h
    where
      run_node-1 :
          (rest : Run c p Program pair) (o : Outcome (Node × Option Server)) (code : ℕ)
          → ((n : Node) → (rest n).1 ≢ returned tt)
          → run_node rest o ≡ returned code
          → code ≡ 1
      run_node-1 rest (returned (n, server)) code endless e =
          exit_code-1 (rest n).1 code (endless n) e
      run_node-1 rest (thrown x) code endless e = cc e
      run_node-1 rest undefined code endless e = cc e
      run_node-1 rest unfinished code endless e = cc e
