-- ===== src/Socket/Connect.antt =====
-- How `connect` of a Socket (sylar/socket.cpp) ends.
use sylar_demo.Common.{
  ℕ, ◌≡◌, ◌≢◌, refl, sym, ap, ◌∙◌, ◌⊎◌, inl, inr, Bool, true, false, not, List, [], ◌∷◌, ◌++◌,
  Option, none, some, ◌==◌, eq→==, arith, if◌then◌else◌, if_both, if_known, Bool-cases,
}
use mathlib.Core.Path.{subst}
use sylar_demo.Socket.{
  Socket, Effect, opens, closes, is_some, is_valid, new_sock, close, connect, get_local_address,
  get_remote_address,
}

two_answers : false ≢ true
two_answers e = ground (arith, e)

not-true : (b : Bool) → not b ≡ true → b ≡ false
not-true true h = absurd (two_answers h)
not-true false h = refl

not-false : (b : Bool) → not b ≡ false → b ≡ true
not-false true h = refl
not-false false h = absurd (two_answers (sym h))

-- The descriptor that `connect` works with: the one the socket `has`, or the one the system `gives`.
abbrev pub descriptor : Option ℕ → Option ℕ → Option ℕ
descriptor none gives = gives
descriptor (some k) gives = some k

-- What is opened for that.
abbrev pub opened : Option ℕ → Option ℕ → List Effect
opened none none = []
opened none (some k) = opens k ∷ []
opened (some k) gives = []

module _ {A : Type 0} where
  -- The system accepts the call, for an address of the socket's family: it is connected, to that
  -- address, and keeps its descriptor.
  pub record Connected (addr : A) (f : ℕ) (fd : Option ℕ) (done : Bool) (s : Socket A)
      (r : List Effect × Bool × Socket A) : Type 0 where
    pub accepted : done ≡ true
    pub family : f ≡ s.family
    pub fd_is : (k : ℕ) × (descriptor s.sock fd ≡ some k) × (r.2.sock ≡ some k)
    pub effects : r.0 ≡ opened s.sock fd
    pub result : r.1 ≡ true
    pub connected : r.2.is_connected ≡ true
    pub remote : r.2.remote_address ≡ some addr

  -- There is no descriptor, and the system gives none.
  pub record NoDescriptor (addr : A) (fd : Option ℕ) (s : Socket A)
      (r : List Effect × Bool × Socket A) : Type 0 where
    pub had_none : s.sock ≡ none
    pub given_none : fd ≡ none
    pub effects : r.0 ≡ []
    pub result : r.1 ≡ false
    pub after : r.2 ≡ record s { remote_address = some addr }

  -- The system refuses the call, for an address of the socket's family: the descriptor is closed.
  pub record Refused (addr : A) (f : ℕ) (fd : Option ℕ) (done : Bool) (s : Socket A)
      (r : List Effect × Bool × Socket A) : Type 0 where
    pub refused : done ≡ false
    pub family : f ≡ s.family
    pub fd_is :
        (k : ℕ) × (descriptor s.sock fd ≡ some k) × (r.0 ≡ opened s.sock fd ++ (closes k ∷ []))
    pub result : r.1 ≡ false
    pub after : r.2 ≡ record s { sock = none; is_connected = false; remote_address = some addr }

  -- The address is of another family: the system is not called, and the descriptor stays.
  pub record OtherFamily (addr : A) (f : ℕ) (fd : Option ℕ) (s : Socket A)
      (r : List Effect × Bool × Socket A) : Type 0 where
    pub other : f ≢ s.family
    pub fd_is : (k : ℕ) × (descriptor s.sock fd ≡ some k) × (r.2.sock ≡ some k)
    pub effects : r.0 ≡ opened s.sock fd
    pub result : r.1 ≡ false
    pub connected : r.2.is_connected ≡ s.is_connected
    pub remote : r.2.remote_address ≡ some addr

  -- The four ends.
  abbrev pub Ends : A → ℕ → Option ℕ → Bool → Socket A → List Effect × Bool × Socket A → Type 0
  Ends addr f fd done s r =
      Connected addr f fd done s r
      ⊎ (NoDescriptor addr fd s r ⊎ (Refused addr f fd done s r ⊎ OtherFamily addr f fd s r))

  keeps_remote :
      (addr : A) (peer : Option A) (w : Socket A)
      → w.remote_address ≡ some addr
      → (get_remote_address peer w).1 ≡ w
  unfolding get_remote_address
  keeps_remote addr peer w r = ap (λ o. (looked_up o).1) r
    where
      looked_up : Option A → Option A × Socket A
      looked_up o =
          if is_some o then (w.remote_address, w) else (peer, record w { remote_address = peer })

  -- A name is stored at most.
  keeps_rest :
      (name : Option A) (w : Socket A)
      → (let v = (get_local_address name w).1 in
          (v.sock ≡ w.sock)
          × (v.is_connected ≡ w.is_connected)
          × (v.remote_address ≡ w.remote_address))
  unfolding get_local_address
  keeps_rest name w =
      if_both
        (λ (r : Option A × Socket A).
          (r.1.sock ≡ w.sock)
          × (r.1.is_connected ≡ w.is_connected)
          × (r.1.remote_address ≡ w.remote_address))
        (is_some w.local_address) _ _ (refl, refl, refl) (refl, refl, refl)

  -- The socket when the call has been accepted.
  joined : A → ℕ → Option A → Option A → Socket A → Socket A
  joined addr k name peer s =
      (get_local_address name
        (get_remote_address peer
          (record s { sock = some k; is_connected = true; remote_address = some addr })).1).1

  joined_keeps :
      (addr : A) (k : ℕ) (name peer : Option A) (s : Socket A)
      → (let v = joined addr k name peer s in
          (v.sock ≡ some k) × (v.is_connected ≡ true) × (v.remote_address ≡ some addr))
  unfolding joined
  joined_keeps addr k name peer s =
      let w = record s { sock = some k; is_connected = true; remote_address = some addr } in
      subst
        (λ (x : Socket A).
          (let v = (get_local_address name x).1 in
            (v.sock ≡ some k) × (v.is_connected ≡ true) × (v.remote_address ≡ some addr)))
        (sym (keeps_remote addr peer w refl)) (keeps_rest name w)

  -- `close` with a descriptor.
  close_open :
      (k : ℕ) (v : Socket A)
      → v.sock ≡ some k
      → close v ≡ (closes k ∷ [], false, record v { is_connected = false; sock = none })
  unfolding close
  close_open k v h =
      rw h (elim (Bool-cases v.is_connected) [ inl e ↦ rw e refl | inr e ↦ rw e refl ])

  -- The end of `connect`, with the descriptor `k` and what has been opened before.
  tail :
      A
      → ℕ
      → ℕ
      → List Effect
      → Bool
      → Option A
      → Option A
      → Socket A
      → List Effect × Bool × Socket A
  tail addr f k before done name peer s =
      let v = record s { sock = some k; remote_address = some addr } in
      let (closed, result, shut) = close v in
      if not (f == s.family)
      then (before, false, v)
      else if done
      then (before, true, joined addr k name peer s)
      else (before ++ closed, false, shut)

  tail-Ends :
      (addr : A) (f k : ℕ) (fd : Option ℕ) (done : Bool) (name peer : Option A) (s : Socket A)
      → descriptor s.sock fd ≡ some k
      → Ends addr f fd done s (tail addr f k (opened s.sock fd) done name peer s)
  unfolding tail
  tail-Ends addr f k fd done name peer s h =
      let shut = close_open k (record s { sock = some k; remote_address = some addr }) refl in
      let (sock, connected, remote) = joined_keeps addr k name peer s in
      if_known (Ends addr f fd done s) (not (f == s.family)) _ _
        (λ c. inr (
          inr (
            inr (record {
              other = λ e. two_answers (sym (not-true (f == s.family) c) ∙ eq→== f s.family e);
              fd_is = (k, h, refl);
              effects = refl;
              result = refl;
              connected = refl;
              remote = refl;
            }))))
        (λ c.
          let same : f ≡ s.family = ground (arith, not-false (f == s.family) c) in
          if_known (Ends addr f fd done s) done _ _
            (λ d. inl (record {
              accepted = d;
              family = same;
              fd_is = (k, h, sock);
              effects = refl;
              result = refl;
              connected = connected;
              remote = remote;
            }))
            (λ d. inr (
              inr (
                inl (record {
                  refused = d;
                  family = same;
                  fd_is = (k, h, ap (λ x. opened s.sock fd ++ x.0) shut);
                  result = refl;
                  after = ap (λ x. x.2) shut;
                })))))

  -- `connect` to an address of the family `f`, in all its cases. It works with the descriptor that the
  -- socket has, or opens the one that the system gives. Where the address is of the socket's family
  -- and the system accepts the call, it returns true, the descriptor stays, and the socket is
  -- connected, to that address. Otherwise it returns false, and stores the address nonetheless: where
  -- there is no descriptor and none is given, nothing else changes; where the address is of another
  -- family the descriptor stays, opened or not, and the socket is as connected as before; where the
  -- system refuses the call the descriptor is closed, and the socket has none and is not connected.
  pub connect_cases :
      (addr : A) (f : ℕ) (fd : Option ℕ) (done : Bool) (name peer : Option A) (s : Socket A)
      → Ends addr f fd done s (connect addr f fd done name peer s)
  unfolding connect is_valid new_sock tail joined
  connect_cases addr f fd done name peer s = go s.sock fd
    where
      go :
          (o fd : Option ℕ)
          → Ends addr f fd done
              (record s { sock = o })
              (connect addr f fd done name peer (record s { sock = o }))
      go none none = inr (
          inl (record {
            had_none = refl;
            given_none = refl;
            effects = refl;
            result = refl;
            after = refl;
          }))
      go none (some k) = tail-Ends addr f k (some k) done name peer (record s { sock = none }) refl
      go (some k) fd = tail-Ends addr f k fd done name peer (record s { sock = some k }) refl
