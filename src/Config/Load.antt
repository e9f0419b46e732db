-- ===== src/Config/Load.antt =====
-- A file that is read into the configuration (sylar/config.cpp).
--
-- A YAML::Node is the tree that its functions show: a scalar with its text, a map whose keys are
-- strings, in order, or anything else. What `<<` writes of a node that is no scalar is a parameter.
use sylar_demo.Common.{
  ℕ, ◌≡◌, ◌≢◌, refl, sym, ap, ◌∙◌, inl, inr, Bool, true, false, if_both, List, [], ◌∷◌, ◌++◌,
  Option, none, some, map, All, All-map, arith, update_same, Bool-cases, if◌then◌else◌, update,
  update_other, find,
}
use sylar_demo.Config.{
  Values, Outcome, returned, escaped, Config, Call, tolower, is_name, from_string, lookup_base,
}
use sylar_demo.Log.Format.{is_empty}

mutual
  pub data Node : Type 0 where
    scalar : List ℕ → Node
    branch : Pairs → Node
    other : List ℕ → Node

  pub data Pairs : Type 0 where
    no_pair : Pairs
    pair : List ℕ → Node → Pairs → Pairs

-- `prefix.empty() ? key : prefix + "." + key`
abbrev pub join : List ℕ → List ℕ → List ℕ
join [] key = key
join (c ∷ cs) key = (c ∷ cs) ++ (b'.' ∷ key)

-- `ListAllMember`, with the loop over the pairs of a map.
unfoldable mutual
  pub list_all_member : List ℕ → Node → List (List ℕ × Node)
  list_all_member prefix (scalar s) = if is_name prefix then (prefix, scalar s) ∷ [] else []
  list_all_member prefix (other n) = if is_name prefix then (prefix, other n) ∷ [] else []
  list_all_member prefix (branch ps) =
      let below = list_pairs prefix ps in if is_name prefix then (prefix, branch ps) ∷ below else []

  pub list_pairs : List ℕ → Pairs → List (List ℕ × Node)
  list_pairs prefix no_pair = []
  list_pairs prefix (pair key node rest) =
      list_all_member (join prefix key) node ++ list_pairs prefix rest

two_answers : Path Bool false true → ⊥
two_answers e = absurd (ground (arith, e))

-- A step of the loop of `LoadFromYaml`, and the loop: the calls of listeners, whether an exception of
-- one leaves it, with which the loop stops, and the configuration.
module _ {V : Type 0} (lib : Values V) (written : Node → List ℕ) where
  abbrev pub text_of : Node → List ℕ
  text_of (scalar s) = s
  text_of (branch ps) = written (branch ps)
  text_of (other s) = written (other s)

  abbrev pub has_escaped : Outcome → Bool
  has_escaped (returned b) = false
  has_escaped escaped = true

  abbrev pub read_var : Option ℕ → List ℕ → Config V → List (Call V) × Bool × Config V
  read_var none text c = ([], false, c)
  read_var (some a) text c =
      let (calls, out, var) = from_string lib text (c.vars a) in
      (calls, has_escaped out, record c { vars = update a var c.vars })

  unfoldable pub load_one : List ℕ × Node → Config V → List (Call V) × Bool × Config V
  load_one e c =
      if is_empty e.0
      then ([], false, c)
      else read_var (lookup_base (map tolower e.0) c) (text_of e.1) c

  unfoldable pub load_all : List (List ℕ × Node) → Config V → List (Call V) × Bool × Config V
  unfolding load_one
  load_all [] c = ([], false, c)
  load_all (e ∷ rest) c =
      let (calls, stops, d) = load_one e c in
      let (later, stops_later, f) = load_all rest d in
      if stops then (calls, true, d) else (calls ++ later, stops_later, f)

  pub load_from_yaml : Node → Config V → List (Call V) × Bool × Config V
  unfolding load_all
  load_from_yaml root c = load_all (list_all_member [] root) c

  -- The entry is for another variable than that at `a`.
  abbrev pub IsElsewhere : ℕ → Config V → List ℕ × Node → Type 0
  IsElsewhere a c e = lookup_base (map tolower e.0) c ≢ some a

  -- The table stays, and so does the variable at `a`.
  abbrev pub Keeps : ℕ → Config V → Config V → Type 0
  Keeps a c d = (d.datas ≡ c.datas) × (d.vars a ≡ c.vars a)

  read_var-Keeps :
      (o : Option ℕ) (a : ℕ) (text : List ℕ) (c : Config V)
      → o ≢ some a
      → Keeps a c (read_var o text c).2
  read_var-Keeps none a text c h = (refl, refl)
  read_var-Keeps (some b) a text c h =
      (refl, update_other b a _ c.vars (λ e. h (ap (λ k. some k) (sym e))))

  load_one-Keeps :
      (e : List ℕ × Node) (a : ℕ) (c : Config V) → IsElsewhere a c e → Keeps a c (load_one e c).2
  unfolding load_one
  load_one-Keeps e a c h = elim (Bool-cases (is_empty e.0)) [
    | inl b ↦ rw b (refl, refl)
    | inr b ↦ rw b (read_var-Keeps (lookup_base (map tolower e.0) c) a (text_of e.1) c h)
  ]

  Elsewhere-datas :
      (a : ℕ) (c d : Config V) (l : List (List ℕ × Node))
      → d.datas ≡ c.datas
      → All (IsElsewhere a c) l
      → All (IsElsewhere a d) l
  unfolding lookup_base
  Elsewhere-datas a c d l same_table =
      All-map (IsElsewhere a c) (IsElsewhere a d) l
        (λ e h k. h (ap (λ t. find (map tolower e.0) t) (sym same_table) ∙ k))

  load_all-Keeps :
      (l : List (List ℕ × Node)) (a : ℕ) (c : Config V)
      → All (IsElsewhere a c) l
      → Keeps a c (load_all l c).2
  unfolding load_all
  load_all-Keeps [] a c h = (refl, refl)
  load_all-Keeps (e ∷ rest) a c (h, hs) =
      let (t, v) = load_one-Keeps e a c h in
      let (u, w) =
        load_all-Keeps rest a (load_one e c).2 (Elsewhere-datas a c (load_one e c).2 rest t hs) in
      if_both (λ (r : List (Call V) × Bool × Config V). Keeps a c r.2) (load_one e c).1 _ _ (t, v)
        (u ∙ t, w ∙ v)

  -- `LoadFromYaml` does not touch a variable that none of the listed keys is the name of.
  pub load_from_yaml-Keeps :
      (root : Node) (a : ℕ) (c : Config V)
      → All (IsElsewhere a c) (list_all_member [] root)
      → Keeps a c (load_from_yaml root c).2
  unfolding load_from_yaml
  load_from_yaml-Keeps root a c h = load_all-Keeps (list_all_member [] root) a c h

  -- Where no exception leaves the loop over the entries in front, it goes on behind them.
  load_all-append :
      (l k : List (List ℕ × Node)) (c : Config V)
      → (load_all l c).1 ≡ false
      → (load_all (l ++ k) c).2 ≡ (load_all k (load_all l c).2).2
  unfolding load_all
  load_all-append [] k c h = refl
  load_all-append (e ∷ rest) k c h = elim (Bool-cases (load_one e c).1) [
    | inl b ↦ absurd (two_answers (sym (rw b at h)))
    | inr b ↦ rw b (load_all-append rest k (load_one e c).2 (rw b at h))
  ]

  -- An entry for the variable at `a`.
  Reads : ℕ → List ℕ × Node → Config V → Config V → Type 0
  Reads a e c d = (d.datas ≡ c.datas) × (d.vars a ≡ (from_string lib (text_of e.1) (c.vars a)).2)

  load_one-Reads :
      (e : List ℕ × Node) (a : ℕ) (c : Config V)
      → is_empty e.0 ≡ false
      → lookup_base (map tolower e.0) c ≡ some a
      → Reads a e c (load_one e c).2
  unfolding load_one Reads
  load_one-Reads e a c n f = rw (n, f) (refl, update_same a _ c.vars)

  load_all-Reads :
      (l : List (List ℕ × Node)) (a : ℕ) (c : Config V) (e : List ℕ × Node)
      → is_empty e.0 ≡ false
      → lookup_base (map tolower e.0) c ≡ some a
      → All (IsElsewhere a c) l
      → Reads a e c (load_all (e ∷ l) c).2
  unfolding load_all Reads
  load_all-Reads l a c e n f k =
      let (t, v) = load_one-Reads e a c n f in
      let d = (load_one e c).2 in
      let (u, w) = load_all-Keeps l a d (Elsewhere-datas a c d l t k) in
      if_both (λ (r : List (Call V) × Bool × Config V). Reads a e c r.2) (load_one e c).1 _ _ (t, v)
        (u ∙ t, w ∙ v)

  -- A variable that just one of the listed keys is the name of, where that key is not empty and no
  -- exception, other than a std::exception, of a listener for a key in front of it leaves the loop: it
  -- is then as `fromString` leaves it on the text of that entry; the table stays.
  pub load_from_yaml-from_string :
      (root : Node) (a : ℕ) (c : Config V) (before after : List (List ℕ × Node)) (e : List ℕ × Node)
      → list_all_member [] root ≡ before ++ (e ∷ after)
      → is_empty e.0 ≡ false
      → lookup_base (map tolower e.0) c ≡ some a
      → All (IsElsewhere a c) before
      → All (IsElsewhere a c) after
      → (load_all before c).1 ≡ false
      → ((load_from_yaml root c).2.datas ≡ c.datas)
        × ((load_from_yaml root c).2.vars a ≡ (from_string lib (text_of e.1) (c.vars a)).2)
  unfolding load_from_yaml lookup_base Reads
  load_from_yaml-from_string root a c before after e is n f h k goes_on =
      let d = (load_all before c).2 in
      let (t, v) = load_all-Keeps before a c h in
      let (u, w) =
        load_all-Reads after a d e n (ap (λ m. find (map tolower e.0) m) t ∙ f)
          (Elsewhere-datas a c d after t k) in
      let whole = ap (λ l. (load_all l c).2) is ∙ load_all-append before (e ∷ after) c goes_on in
      (
        ap (λ (x : Config V). x.datas) whole ∙ u ∙ t,
        ap (λ (x : Config V). x.vars a) whole ∙ w ∙ ap (λ x. (from_string lib (text_of e.1) x).2) v,
      )
