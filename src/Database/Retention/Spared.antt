-- ===== src/Database/Retention/Spared.antt =====
-- What the retention leaves alone.
use go_dark_web_crawler.Common.{
  ℕ, ◌+◌, ◌*◌, ◌≤◌, ◌<◌, ◌≢◌, ◌≡◌, ◌∙◌, ap, sym, refl, subst, Bool, true, false, not, ◌&&◌, none,
  some, List, [], ◌∷◌, arith, keep, ltb, All, All-take, All-keep_passed, All-weaken, Bool-cases,
  inl, inr, ◌==◌, if◌then◌else◌,
}
use go_dark_web_crawler.Common.Text.{Bytes, bytes_eq, bytes_eq_iff}
use go_dark_web_crawler.Common.Select.{count_rows, delete_rows, count_rows-keep, All-order_by}
use go_dark_web_crawler.Database.Store.{crawling, is, Node, has_key, find_row}
use go_dark_web_crawler.Database.Rows.{find_row-key}
use go_dark_web_crawler.Database.Keys.{UniqueKeys, IsStored, UniqueKeys-IsStored}
use go_dark_web_crawler.Database.Annotations.{Book, tag_on, note_on, watch_on}
use go_dark_web_crawler.Database.Retention.{
  Archive, has_node, with_nodes, Policy, is_annotated, outlived, is_among, victims, Report, retain,
  retain_all, apply_retention,
}

find_row-keep :
    (q : Node → Bool) (url : Bytes) (user : ℕ) (ns : List Node) (n : Node)
    → find_row url user ns ≡ some n
    → q n ≡ true
    → find_row url user (keep q ns) ≡ some n
unfolding find_row keep
find_row-keep q url user [] n e h = absurd (cc e)
find_row-keep q url user (m ∷ ns) n e h = elim (Bool-cases (has_key url user m)) [
  | inl f ↦ let same : m ≡ n = cc (rw f at e) in rw (ap q same ∙ h) (rw f (ap some same))
  | inr f ↦
      let rest = find_row-keep q url user ns n (rw f at e) h in
      elim (Bool-cases (q m)) [ inl g ↦ rw g (rw f rest) | inr g ↦ rw g rest ]
]

find_row-keep-none :
    (q : Node → Bool) (url : Bytes) (user : ℕ) (ns : List Node)
    → find_row url user ns ≡ none
    → find_row url user (keep q ns) ≡ none
unfolding find_row keep
find_row-keep-none q url user [] e = refl
find_row-keep-none q url user (m ∷ ns) e = ground (arith, find_row-keep-none q url user ns)

keep-UniqueKeys : (q : Node → Bool) (ns : List Node) → UniqueKeys ns → UniqueKeys (keep q ns)
unfolding keep
keep-UniqueKeys q [] u = tt
keep-UniqueKeys q (n ∷ ns) u = elim (Bool-cases (q n)) [
  | inl e ↦ rw e (find_row-keep-none q n.url n.user_id ns u.0, keep-UniqueKeys q ns u.1)
  | inr e ↦ rw e (keep-UniqueKeys q ns u.1)
]

among_member {ℓ} :
    (P : Node → Type ℓ) (ms : List Node) (n : Node)
    → All P ms
    → is_among ms n ≡ true
    → (m : Node) × (P m × (has_key m.url m.user_id n ≡ true))
unfolding is_among
among_member P [] n h e = absurd (cc e)
among_member P (m ∷ ms) n h e = elim (Bool-cases (has_key m.url m.user_id n)) [
  | inl f ↦ (m, (h.0, f))
  | inr f ↦ among_member P ms n h.1 (rw f at e)
]

same_row :
    (ns : List Node) (url : Bytes) (user : ℕ) (m n : Node)
    → IsStored ns m
    → find_row url user ns ≡ some n
    → has_key m.url m.user_id n ≡ true
    → has_key url user n ≡ true
    → m ≡ n
same_row ns url user m n stored found key own_key =
    let eu : m.url ≡ url =
      sym ((bytes_eq_iff n.url m.url).0 (ground arith))
      ∙ (bytes_eq_iff n.url url).0 (ground arith) in
    let eo : m.user_id ≡ user = ground arith in cc (rw (eu, eo) at stored)

present :
    (ns : List Node) (url : Bytes) (user : ℕ) (n : Node)
    → find_row url user ns ≡ some n
    → has_node ns url user ≡ true
present ns url user n e = rw (has_node, e) refl

stands :
    (ns : List Node) (url : Bytes) (user : ℕ) (n : Node)
    → find_row url user ns ≡ some n
    → has_key url user n ≡ true
    → has_node ns n.url n.user_id ≡ true
stands ns url user n found key =
    let eu : n.url ≡ url = (bytes_eq_iff n.url url).0 (ground arith) in
    let eo : n.user_id ≡ user = ground arith in
    present ns n.url n.user_id n (
      subst (λ x. find_row x n.user_id ns ≡ some n) (sym eu)
        (subst (λ x. find_row url x ns ≡ some n) (sym eo) found))

there :
    (ns : List Node) (url : Bytes) (user : ℕ) (site : Bytes) (owner : ℕ)
    → has_node ns url user ≡ true
    → (owner == user && bytes_eq site url) ≡ true
    → has_node ns site owner ≡ true
there ns url user site owner stays h =
    let eu : site ≡ url = (bytes_eq_iff site url).0 (ground arith) in
    let eo : owner ≡ user = ground arith in rw (eu, eo) stays

module _ (now batch : ℕ) (url : Bytes) (user : ℕ) (n : Node) where
  -- A row that the window has not outlived is no victim.
  not_victim :
      (b : Book) (p : Policy)
      → UniqueKeys b.nodes
      → find_row url user b.nodes ≡ some n
      → outlived b now p n ≡ false
      → is_among (victims b now batch p) n ≡ false
  unfolding victims
  not_victim b p u found alive = elim (Bool-cases (is_among (victims b now batch p) n)) [
    | inr e ↦ e
    | inl e ↦
        let chosen =
          All-take (λ m. IsStored b.nodes m × (outlived b now p m ≡ true)) batch _
            (All-order_by (λ m. IsStored b.nodes m × (outlived b now p m ≡ true)) _ _
              (All-keep_passed (IsStored b.nodes) (outlived b now p) b.nodes
                (UniqueKeys-IsStored b.nodes u))) in
        let (m, ((stored, over), key)) =
          among_member (λ m. IsStored b.nodes m × (outlived b now p m ≡ true))
            (victims b now batch p) n chosen e in
        let own_key = find_row-key url user b.nodes n found in
        let same : m ≡ n = same_row b.nodes url user m n stored found key own_key in
        absurd (cc (sym alive ∙ (ap (outlived b now p) (sym same) ∙ over)))
  ]

  -- The annotations of a row that stays do, too.
  annotated_kept :
      (a : Archive) (ns : List Node)
      → find_row url user ns ≡ some n
      → has_key url user n ≡ true
      → is_annotated (with_nodes a ns).book n ≡ is_annotated a.book n
  unfolding with_nodes
  annotated_kept a ns found key =
      let stays : has_node ns n.url n.user_id ≡ true = stands ns url user n found key in
      rw
        (
          count_rows-keep (tag_on n.url n.user_id) (λ t. has_node ns t.site t.owner) a.book.tags
              (λ r h. there ns n.url n.user_id r.site r.owner stays h),
          count_rows-keep (note_on n.url n.user_id) (λ t. has_node ns t.site t.owner) a.book.notes
              (λ r h. there ns n.url n.user_id r.site r.owner stays h),
          count_rows-keep (watch_on n.url n.user_id) (λ t. has_node ns t.site t.owner)
              a.book.watches (λ r h. there ns n.url n.user_id r.site r.owner stays h),
        )
        refl

  outlived_kept :
      (a : Archive) (ns : List Node) (p : Policy)
      → find_row url user ns ≡ some n
      → has_key url user n ≡ true
      → outlived (with_nodes a ns).book now p n ≡ outlived a.book now p n
  unfolding outlived
  outlived_kept a ns p found key = rw (annotated_kept a ns found key) refl

  -- What holds of the tables before each account.
  abbrev IsKept : Archive → List Policy → Type 0
  IsKept a ps =
      UniqueKeys a.book.nodes
      × ((find_row url user a.book.nodes ≡ some n) × All (λ p. outlived a.book now p n ≡ false) ps)

  retain-IsKept :
      (a : Archive) (r : Report) (p : Policy) (ps : List Policy)
      → IsKept a (p ∷ ps)
      → IsKept (retain now batch (a, r) p).0 ps
  unfolding retain delete_rows with_nodes keep
  retain-IsKept a r p ps (u, (found, (alive, rest))) = elim (Bool-cases r.dry_run) [
    | inl dry ↦ simp dry (u, (found, rest))
    | inr wet ↦
        let gone = victims a.book now batch p in
        let spared : not (is_among gone n) ≡ true = rw (not_victim a.book p u found alive) refl in
        let left = keep (λ m. not (is_among gone m)) a.book.nodes in
        let still =
          find_row-keep (λ m. not (is_among gone m)) url user a.book.nodes n found spared in
        simp wet (
          keep-UniqueKeys (λ m. not (is_among gone m)) a.book.nodes u,
          (
            still,
            All-weaken (λ p. outlived a.book now p n ≡ false)
                (λ p. outlived (with_nodes a left).book now p n ≡ false) ps
                (λ q e. outlived_kept a left q still (find_row-key url user left n still) ∙ e) rest,
          ),
        )
  ]

  retain_all-IsKept :
      (a : Archive) (r : Report) (ps : List Policy)
      → IsKept a ps
      → find_row url user (retain_all now batch (a, r) ps).0.book.nodes ≡ some n
  unfolding retain_all
  retain_all-IsKept a r [] h = h.1.0
  retain_all-IsKept a r (p ∷ ps) h =
      let (after, report) = retain now batch (a, r) p in
      retain_all-IsKept after report ps (retain-IsKept a r p ps h)

-- Why a row stays under a policy.
pub data IsSpared (b : Book) (now : ℕ) (p : Policy) (n : Node) : Type 0 where
  being_crawled : n.status ≡ crawling → IsSpared b now p n
  tagged : 0 < count_rows (tag_on n.url n.user_id) b.tags → IsSpared b now p n
  noted : 0 < count_rows (note_on n.url n.user_id) b.notes → IsSpared b now p n
  watched : 0 < count_rows (watch_on n.url n.user_id) b.watches → IsSpared b now p n
  young : now ≤ n.discovered_at + p.days * 86_400_000_000 → IsSpared b now p n
  fresh :
      (t : ℕ) → n.last_crawled_at ≡ some t → now ≤ t + p.days * 86_400_000_000 → IsSpared b now p n
  of_other : n.user_id ≢ p.user → IsSpared b now p n
  no_window : p.days ≡ 0 → IsSpared b now p n

-- But for a policy without a window, which the query leaves out, the condition of the DELETE fails.
spared_stays :
    (b : Book) (now : ℕ) (p : Policy) (n : Node)
    → ltb 0 p.days ≡ true
    → IsSpared b now p n
    → outlived b now p n ≡ false
unfolding outlived is
spared_stays b now p n on (being_crawled h) = rw (outlived, h) (ground arith)
spared_stays b now p n on (tagged h) = ground arith
spared_stays b now p n on (noted h) = ground arith
spared_stays b now p n on (watched h) = ground arith
spared_stays b now p n on (young h) = ground arith
spared_stays b now p n on (fresh t at h) = rw (outlived, at) (ground arith)
spared_stays b now p n on (of_other h) = ground arith
spared_stays b now p n on (no_window h) = absurd (cc (rw h at on))

policies_stay :
    (b : Book) (now : ℕ) (n : Node) (ps : List Policy)
    → All (λ p. IsSpared b now p n) ps
    → All (λ p. outlived b now p n ≡ false) (keep (λ p. ltb 0 p.days) ps)
unfolding keep
policies_stay b now n [] h = tt
policies_stay b now n (p ∷ ps) h = elim (Bool-cases (ltb 0 p.days)) [
  | inl e ↦ rw e (spared_stays b now p n e h.0, policies_stay b now n ps h.1)
  | inr e ↦ rw e (policies_stay b now n ps h.1)
]

-- A pass of the retention, with any batch and over any accounts, leaves a row as it is if for each account
-- with its window one of these holds: the row is being crawled; its account has tagged it, noted it or is
-- watching it; it was discovered or crawled within the window; it is another account's; or there is no window.
pub retention_spares :
    (a : Archive) (now batch : ℕ) (dry_run : Bool) (policies : List Policy) (url : Bytes) (user : ℕ)
    (n : Node)
    → UniqueKeys a.book.nodes
    → find_row url user a.book.nodes ≡ some n
    → All (λ p. IsSpared a.book now p n) policies
    → find_row url user (apply_retention a now policies batch dry_run).0.book.nodes ≡ some n
unfolding apply_retention
retention_spares a now batch dry_run policies url user n u found spared =
    retain_all-IsKept now (if batch == 0 then 1000 else batch) url user n a _
      (keep (λ p. ltb 0 p.days) policies) (u, (found, policies_stay a.book now n policies spared))
