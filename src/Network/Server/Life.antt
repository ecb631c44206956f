-- ===== src/Network/Server/Life.antt =====
-- src/network/NetworkManager.cpp: how the server starts, and how `stopServer` and the end of `run` share
-- the closing of its descriptors.
use npp.Common.{
  ℕ, suc, ◌<◌, ◌≡◌, ◌≢◌, ◌↔◌, refl, ap, ◌∙◌, true, false, none, some, List, [], ◌∷◌, ◌++◌, ◌⊎◌, inl,
  inr, Bool-cases, Option-cases, append_assoc, ◌==◌, if◌then◌else◌, arith,
}
use npp.Network.Head.{htons}
use npp.Network.Registry.{NetworkManager}
use npp.Network.Server.{
  Descriptors, without, close_fd, Startup, open_server, start_server, stop_running, stop_listening,
  stop_epoll, stop_server, destroy_manager, end_run,
}

-- How often a descriptor stands in a list.
abbrev pub count : ℕ → List ℕ → ℕ
count x [] = 0
count x (y ∷ ys) = if x == y then suc (count x ys) else count x ys

count-without : (x fd : ℕ) (fds : List ℕ) → x ≢ fd → count x (without fd fds) ≡ count x fds
count-without x fd [] h = refl
count-without x fd (y ∷ ys) h = ground (arith, count-without x fd ys h)

-- The calls of `run` before its loop whose failure it looks at have succeeded.
pub record Succeeds (a : Startup) (fd epoll_fd : ℕ) : Type 0 where
  pub has_socket : a.socket ≡ some fd
  pub has_bound : a.bound ≡ true
  pub has_epoll : a.epoll ≡ some epoll_fd
  pub has_added : a.added ≡ true

-- The first call that fails.
start-cases :
    (a : Startup)
    → ((fd : ℕ) × (epoll_fd : ℕ) × Succeeds a fd epoll_fd)
      ⊎ ((m : NetworkManager) → (open_server m a).0.running ≡ m.running)
unfolding open_server
start-cases a = elim (Option-cases a.socket) [
  | inl n ↦ inr (λ m. ground arith)
  | inr (fd, s) ↦ elim (Bool-cases a.bound) [
    | inr b ↦ inr (λ m. ground arith)
    | inl b ↦ elim (Option-cases a.epoll) [
      | inl n ↦ inr (λ m. ground arith)
      | inr (ep, e) ↦ elim (Bool-cases a.added) [
        | inl t ↦
            inl (fd, ep, record { has_socket = s; has_bound = b; has_epoll = e; has_added = t })
        | inr t ↦ inr (λ m. ground arith)
      ]
    ]
  ]
]

-- `startServer` of a manager that does not run returns exactly when `socket`, `bind`, `epoll_create` and
-- `epoll_ctl` have succeeded, whatever `listen` and `getsockname` answer; then the members are the
-- descriptors that the system gave, and the port that `getsockname` gave, or where this has failed the
-- one that was asked for. Where one of the four calls has failed it waits for ever, and does not report
-- the failure; the port is the one that was asked for.
pub start_server_lem :
    (m : NetworkManager) (port : ℕ) (a : Startup)
    → m.running ≡ false
    → let (returns, m', fds) = start_server m port a in
      (returns ≡ true ↔ (fd : ℕ) × (epoll_fd : ℕ) × Succeeds a fd epoll_fd)
      × ((fd epoll_fd : ℕ)
          → Succeeds a fd epoll_fd
          → (m'.sockfd ≡ some fd)
            × (m'.epoll_fd ≡ some epoll_fd)
            × ((p : ℕ) → a.port ≡ some p → m'.listen_port ≡ htons p)
            × (a.port ≡ none → m'.listen_port ≡ htons (htons port))
            × (fds ≡ epoll_fd ∷ fd ∷ []))
      × (returns ≡ false → (m'.running ≡ false) × (m'.listen_port ≡ port))
unfolding start_server open_server
start_server_lem m port a r = (
  (
    (λ t. elim (start-cases a) [
      | inl g ↦ g
      | inr f ↦ absurd (ground (arith, f (record m { listen_port = port })))
    ]),
    λ g. let s = g.2 in ground arith,
  ),
  (λ fd ep s. ground arith),
  λ n. ground arith,
)

-- The server runs with these descriptors, both of them greater than 0.
pub record IsRunning (m : NetworkManager) (fd epoll_fd : ℕ) : Type 0 where
  pub runs : m.running ≡ true
  pub has_socket : m.sockfd ≡ some fd
  pub has_epoll : m.epoll_fd ≡ some epoll_fd
  pub positive : (0 < fd) × (0 < epoll_fd)

count-close_fd :
    (x fd : ℕ) (d : Descriptors) → x ≢ fd → count x (close_fd fd d).opened ≡ count x d.opened
unfolding close_fd
count-close_fd x fd d h = count-without x fd d.opened h

closes-close_fd :
    (a b : ℕ) (d : Descriptors) → (close_fd b (close_fd a d)).closes ≡ d.closes ++ a ∷ b ∷ []
unfolding close_fd
closes-close_fd a b d = append_assoc d.closes (a ∷ []) (b ∷ [])

stop_first :
    (m : NetworkManager) (d : Descriptors) (fd epoll_fd : ℕ)
    → IsRunning m fd epoll_fd
    → end_run (stop_server m d).0 (stop_server m d).1 ≡ close_fd epoll_fd (close_fd fd d)
unfolding stop_server end_run
stop_first m d fd epoll_fd r = ground arith

-- What the two threads close where the loop ends between the steps of `stopServer`.
abbrev pub stop_around : NetworkManager → Descriptors → Descriptors
stop_around m d =
    let (m1, d1) = stop_listening (stop_running m) (end_run (stop_running m) d) in
    (stop_epoll m1 d1).1

stop_second :
    (m : NetworkManager) (d : Descriptors) (fd epoll_fd : ℕ)
    → IsRunning m fd epoll_fd
    → stop_around m d ≡ close_fd epoll_fd (close_fd fd (close_fd fd (close_fd epoll_fd d)))
unfolding stop_running stop_listening stop_epoll end_run
stop_second m d fd epoll_fd r = ground arith

destroy-running :
    (m : NetworkManager) (d : Descriptors)
    → m.running ≡ true
    → destroy_manager m d ≡ stop_server m d
unfolding destroy_manager
destroy-running m d r = rw r refl

destroy-stopped :
    (m : NetworkManager) (d : Descriptors)
    → let (stopped, d') = stop_server m d in destroy_manager stopped d' ≡ (stopped, d')
unfolding destroy_manager stop_server stop_running stop_listening stop_epoll
destroy-stopped m d = refl

-- `stopServer` and the end of `run` in both orders. Where `stopServer` is done first, each of the two
-- descriptors of the server is closed once. Where the loop sees that it is to stop before `stopServer`
-- has closed them, each is closed twice, by the two threads. Either way no other descriptor is closed:
-- the connections that were accepted stay open. The destructor of a manager whose server runs does what
-- `stopServer` does, and after `stopServer` it does nothing.
pub stop_server_lem :
    (m : NetworkManager) (d : Descriptors) (fd epoll_fd : ℕ)
    → IsRunning m fd epoll_fd
    → let (stopped, d') = stop_server m d in
      let first = end_run stopped d' in
      let second = stop_around m d in
      (first.closes ≡ d.closes ++ fd ∷ epoll_fd ∷ [])
      × (second.closes ≡ d.closes ++ epoll_fd ∷ fd ∷ fd ∷ epoll_fd ∷ [])
      × ((x : ℕ)
          → x ≢ fd
          → x ≢ epoll_fd
          → (count x first.opened ≡ count x d.opened) × (count x second.opened ≡ count x d.opened))
      × (destroy_manager m d ≡ (stopped, d'))
      × (destroy_manager stopped d' ≡ (stopped, d'))
stop_server_lem m d fd epoll_fd r =
    rw (stop_first m d fd epoll_fd r, stop_second m d fd epoll_fd r)
      (
        closes-close_fd fd epoll_fd d,
        closes-close_fd fd epoll_fd (close_fd fd (close_fd epoll_fd d))
            ∙ (ap (λ (l : List ℕ). l ++ fd ∷ epoll_fd ∷ []) (closes-close_fd epoll_fd fd d)
                ∙ append_assoc d.closes (epoll_fd ∷ fd ∷ []) (fd ∷ epoll_fd ∷ [])),
        λ x f e. (
          count-close_fd x epoll_fd _ e ∙ count-close_fd x fd d f,
          count-close_fd x epoll_fd _ e
              ∙ (count-close_fd x fd _ f
                  ∙ (count-close_fd x fd _ f ∙ count-close_fd x epoll_fd d e)),
        ),
        destroy-running m d r.runs,
        destroy-stopped m d,
      )
