-- ===== src/Socket/Own.antt =====
-- The descriptors that a Socket (sylar/socket.cpp) holds.
use sylar_demo.Common.{
  ℕ, ◌≡◌, ◌≢◌, refl, sym, ap, ◌∙◌, inl, inr, Bool, true, false, not, ◌&&◌, List, [], ◌∷◌, ◌++◌,
  Option, none, some, ◌==◌, eq→==, Bool-cases, if◌then◌else◌, if_both, arith,
}
use sylar_demo.Socket.{
  Socket, Effect, opens, closes, is_some, opening, closing, is_valid, new_sock, close, bind,
  connect, reconnect, reconnect_to, ensured, accept, init, get_local_address, get_remote_address,
  create_udp, new_socket,
}

-- What is held behind the effects, of a holder of at most one descriptor: it opens one only while it
-- holds none, and closes only the one that it holds. `none` is a leak, or a descriptor closed twice.
abbrev pub held : Option ℕ → List Effect → Option (Option ℕ)
held o [] = some o
held none (opens fd ∷ rest) = held (some fd) rest
held none (closes fd ∷ rest) = none
held (some k) (opens fd ∷ rest) = none
held (some k) (closes fd ∷ rest) = if k == fd then held none rest else none

held_closing : (o : Option ℕ) → held o (closing o) ≡ some none
held_closing none = refl
held_closing (some fd) = rw (eq→== fd fd refl) refl

held_opening : (fd : Option ℕ) → held none (opening fd) ≡ some fd
held_opening none = refl
held_opening (some k) = refl

same_some : {o p : Option ℕ} → some o ≡ some p → o ≡ p
same_some e = cc

held-append : (o p : Option ℕ) (e f : List Effect) → held o e ≡ some p → held o (e ++ f) ≡ held p f
held-append o p [] f h = ap (λ q. held q f) (same_some h)
held-append none p (opens fd ∷ rest) f h = held-append (some fd) p rest f h
held-append none p (closes fd ∷ rest) f h = absurd (ground (arith, h))
held-append (some k) p (opens fd ∷ rest) f h = absurd (ground (arith, h))
held-append (some k) p (closes fd ∷ rest) f h = elim (Bool-cases (k == fd)) [
  | inl e ↦
      sym (ap (chosen (rest ++ f)) (sym e))
      ∙ held-append none p rest f (ap (chosen rest) (sym e) ∙ h)
  | inr e ↦ absurd (nothing (ap (chosen rest) (sym e) ∙ h))
]
  where
    chosen : List Effect → Bool → Option (Option ℕ)
    chosen l b = if b then held none l else none

    nothing : none ≢ some p
    nothing e = ground (arith, e)

module _ {A : Type 0} where
  abbrev pub Owns : Option ℕ → List Effect × Bool × Socket A → Type 0
  Owns before r = held before r.0 ≡ some r.2.sock

  close-Owns : (s : Socket A) → Owns s.sock (close s)
  unfolding close
  close-Owns s = elim (Bool-cases (not s.is_connected && not (is_some s.sock))) [
    | inl b ↦
        ap (λ t. held s.sock (if t then none_done else some_done).0) b
        ∙ sym (ap (λ t. some (if t then none_done else some_done).2.sock) b)
    | inr b ↦
        ap (λ t. held s.sock (if t then none_done else some_done).0) b
        ∙ held_closing s.sock
        ∙ sym (ap (λ t. some (if t then none_done else some_done).2.sock) b)
  ]
    where
      none_done : List Effect × Bool × Socket A
      none_done = ([], true, s)

      some_done : List Effect × Bool × Socket A
      some_done = (closing s.sock, false, record s { is_connected = false; sock = none })

  abbrev pub Holds : Option ℕ → List Effect × Socket A → Type 0
  Holds before r = held before r.0 ≡ some r.1.sock

  ensured-Holds : (fd : Option ℕ) (s : Socket A) → Holds s.sock (ensured fd s)
  unfolding ensured new_sock is_valid
  ensured-Holds fd s = by_sock s.sock refl
    where
      by_sock :
          (o : Option ℕ)
          → s.sock ≡ o
          → Holds o (if is_some o then ([], s) else (opening fd, record s { sock = fd }))
      by_sock (some k) e = ap (λ o. some o) (sym e)
      by_sock none e = held_opening fd

  local-sock : (name : Option A) (v : Socket A) → (get_local_address name v).1.sock ≡ v.sock
  unfolding get_local_address
  local-sock name v =
      if_both (λ (r : Option A × Socket A). r.1.sock ≡ v.sock) (is_some v.local_address) _ _ refl
        refl

  remote-sock : (peer : Option A) (v : Socket A) → (get_remote_address peer v).1.sock ≡ v.sock
  unfolding get_remote_address
  remote-sock peer v =
      if_both (λ (r : Option A × Socket A). r.1.sock ≡ v.sock) (is_some v.remote_address) _ _ refl
        refl

  bind-Owns :
      (f : ℕ) (fd : Option ℕ) (taken bound : Bool) (name : Option A) (s : Socket A)
      → Owns s.sock (bind f fd taken bound name s)
  unfolding bind
  bind-Owns f fd taken bound name s =
      let h = ensured-Holds fd s in
      let v = (ensured fd s).1 in
      let Q = Owns s.sock in
      if_both Q (not (is_valid v)) _ _ h (
        if_both Q (not (f == v.family)) _ _ h (
          if_both Q taken _ _ h
            (if_both Q bound _ _ (h ∙ ap (λ o. some o) (sym (local-sock name v))) h)))

  connect-Owns :
      (addr : A) (f : ℕ) (fd : Option ℕ) (done : Bool) (name peer : Option A) (s : Socket A)
      → Owns s.sock (connect addr f fd done name peer s)
  unfolding connect
  connect-Owns addr f fd done name peer s =
      let start = record s { remote_address = some addr } in
      let h = ensured-Holds fd start in
      let v = (ensured fd start).1 in
      let w = record v { is_connected = true } in
      let Q = Owns s.sock in
      let found = local-sock name (get_remote_address peer w).1 ∙ remote-sock peer w in
      if_both Q (not (is_valid v)) _ _ h (
        if_both Q (not (f == v.family)) _ _ h (
          if_both Q done _ _ (h ∙ ap (λ o. some o) (sym found))
            (held-append s.sock v.sock (ensured fd start).0 (close v).0 h ∙ close-Owns v)))

-- The operations of a socket, one behind the other, with all their effects.
pub data Use {A : Type 0} (family_of : A → ℕ) : List Effect → Socket A → Type 0 where
  made : (family type protocol : ℕ) → Use family_of [] (new_socket family type protocol)
  made_udp :
      (family : ℕ) (fd : Option ℕ)
      → Use family_of (create_udp {A = A} family fd).0 (create_udp {A = A} family fd).1
  accepts :
      {e : List Effect} {s client : Socket A} (fd : ℕ) (name peer : Option A)
      → Use family_of e s
      → (accept (some fd) true name peer s).1 ≡ some client
      → Use family_of (accept (some fd) true name peer s).0 client
  binds :
      {e : List Effect} {s : Socket A} (f : ℕ) (fd : Option ℕ) (taken bound : Bool)
      (name : Option A)
      → Use family_of e s
      → Use family_of (e ++ (bind f fd taken bound name s).0) (bind f fd taken bound name s).2
  connects :
      {e : List Effect} {s : Socket A} (addr : A) (fd : Option ℕ) (done : Bool)
      (name peer : Option A)
      → Use family_of e s
      → Use family_of
          (e ++ (connect addr (family_of addr) fd done name peer s).0)
          (connect addr (family_of addr) fd done name peer s).2
  reconnects :
      {e : List Effect} {s : Socket A} (fd : Option ℕ) (done : Bool) (name peer : Option A)
      → Use family_of e s
      → Use family_of
          (e ++ (reconnect family_of fd done name peer s).0)
          (reconnect family_of fd done name peer s).2
  closes_it :
      {e : List Effect} {s : Socket A}
      → Use family_of e s
      → Use family_of (e ++ (close s).0) (close s).2

reconnect_to-Owns :
    {A : Type 0} (o : Option A) (family_of : A → ℕ) (fd : Option ℕ) (done : Bool)
    (name peer : Option A) (s : Socket A)
    → Owns s.sock (reconnect_to o family_of fd done name peer s)
unfolding reconnect_to
reconnect_to-Owns none family_of fd done name peer s = refl
reconnect_to-Owns (some addr) family_of fd done name peer s =
    connect-Owns addr (family_of addr) fd done name peer (record s { local_address = none })

accept-sock :
    {A : Type 0} (fd : ℕ) (name peer : Option A) (s client : Socket A)
    → (accept (some fd) true name peer s).1 ≡ some client
    → client.sock ≡ some fd
unfolding accept init
accept-sock fd name peer s client is =
    let w = record (new_socket s.family s.type s.protocol) {
      sock = some fd;
      is_connected = true;
    } in
    sym (ap sock_of is) ∙ remote-sock peer (get_local_address name w).1 ∙ local-sock name w
  where
    sock_of : {A : Type 0} → Option (Socket A) → Option ℕ
    sock_of none = none
    sock_of (some c) = c.sock

-- However a socket is used, it holds just the descriptor that it has: each descriptor that it has
-- opened is its descriptor or has been closed, once, and none is opened while it has another. It is
-- made by a constructor, or by `accept` with a descriptor that is known as a socket.
pub Use-held :
    {A : Type 0} (family_of : A → ℕ) (e : List Effect) (s : Socket A)
    → Use family_of e s
    → held none e ≡ some s.sock
unfolding new_socket create_udp new_sock accept reconnect init
Use-held family_of _ _ (made family type protocol) = refl
Use-held family_of _ _ (made_udp family fd) = held_opening fd
Use-held family_of _ _ (accepts {e} {s} {client} fd name peer u is) =
    ap (λ o. some o) (sym (accept-sock fd name peer s client is))
Use-held family_of _ _ (binds {e} {s} f fd taken bound name u) =
    held-append none s.sock e _ (Use-held family_of e s u) ∙ bind-Owns f fd taken bound name s
Use-held family_of _ _ (connects {e} {s} addr fd done name peer u) =
    held-append none s.sock e _ (Use-held family_of e s u)
    ∙ connect-Owns addr (family_of addr) fd done name peer s
Use-held family_of _ _ (reconnects {e} {s} fd done name peer u) =
    held-append none s.sock e _ (Use-held family_of e s u)
    ∙ reconnect_to-Owns s.remote_address family_of fd done name peer s
Use-held family_of _ _ (closes_it {e} {s} u) =
    held-append none s.sock e _ (Use-held family_of e s u) ∙ close-Owns s

-- `accept` of a descriptor that is not known as a socket: no socket is returned, and the descriptor
-- stays open.
pub accept-leaks :
    {A : Type 0} (fd : ℕ) (name peer : Option A) (s : Socket A)
    → ((accept (some fd) false name peer s).1 ≡ none)
      × (held none (accept (some fd) false name peer s).0 ≡ some (some fd))
unfolding accept init
accept-leaks fd name peer s = (refl, refl)
