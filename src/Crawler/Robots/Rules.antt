-- ===== src/Crawler/Robots/Rules.antt =====
-- What `parseRobots` keeps of a file.
use go_dark_web_crawler.Common.{
  ◌≤◌, ◌≡◌, refl, Bool, true, false, ◌&&◌, ◌||◌, none, some, List, [], ◌∷◌, ◌++◌, ltb, length,
  length-append, All, All-append, arith, Bool-cases, Option-cases, inl, inr,
}
use go_dark_web_crawler.Common.Text.{
  Bytes, bytes_eq, codes, has_prefix, trim_space, to_lower, equal_fold,
}
use go_dark_web_crawler.Crawler.Robots.{
  Parse, Reader, start, split_colon, directive, parse_line, parse_lines, parse_robots, path_allowed,
}

-- At most 1000 prefixes, none of them empty.
abbrev pub IsBounded : List Bytes → Type 0
IsBounded paths = (length paths ≤ 1000) × All (λ p. bytes_eq p [] ≡ false) paths

appended :
    (paths : List Bytes) (value : Bytes)
    → IsBounded paths
    → bytes_eq value [] ≡ false
    → ltb (length paths) 1000 ≡ true
    → IsBounded (paths ++ value ∷ [])
appended paths value h e l =
    (ground (arith, length-append paths (value ∷ [])), All-append _ paths (value ∷ []) h.1 (e, tt))

directive-IsBounded :
    (r : Reader) (ua : Bytes) (s : Parse) (field value : Bytes)
    → IsBounded s.paths
    → IsBounded (directive r ua s field value).paths
unfolding directive
directive-IsBounded r ua s field value h =
    ground (arith, length-append s.paths (value ∷ []), appended s.paths value h)

parse_line-IsBounded :
    (r : Reader) (ua : Bytes) (s : Parse) (raw : Bytes)
    → IsBounded s.paths
    → IsBounded (parse_line r ua s raw).paths
unfolding parse_line
parse_line-IsBounded r ua s raw h =
    let line = trim_space r.unicode raw in
    elim (Bool-cases (has_prefix line (codes "#") || bytes_eq line [])) [
      | inl skip ↦ rw skip h
      | inr fine ↦ elim (Option-cases (split_colon line)) [
        | inl none_there ↦ rw (fine, none_there) h
        | inr (x, there) ↦ rw (fine, there) (directive-IsBounded r ua s _ _ h)
      ]
    ]

parse_lines-IsBounded :
    (r : Reader) (ua : Bytes) (s : Parse) (lines : List Bytes)
    → IsBounded s.paths
    → IsBounded (parse_lines r ua s lines).paths
unfolding parse_lines
parse_lines-IsBounded r ua s [] h = h
parse_lines-IsBounded r ua s (line ∷ lines) h =
    parse_lines-IsBounded r ua (parse_line r ua s line) lines (parse_line-IsBounded r ua s line h)

-- Whatever a site serves, at most 1000 prefixes are kept and none is empty, so none refuses every path.
parse_robots-IsBounded :
    (r : Reader) (ua : Bytes) (lines : List Bytes) → IsBounded (parse_robots r ua lines).0
unfolding parse_robots path_allowed
parse_robots-IsBounded r ua lines = parse_lines-IsBounded r ua start lines (omega arith, tt)

-- The line names the crawler's group or every crawler's.
unfoldable pub addresses : Reader → Bytes → Bytes → Bool
addresses r ua raw = elim (split_colon (trim_space r.unicode raw)) [
  | none ↦ false
  | some (field, value) ↦
      let agent = trim_space r.unicode value in
      bytes_eq (to_lower r.unicode (trim_space r.unicode field)) (codes "user-agent")
      && (bytes_eq agent (codes "*") || equal_fold r.unicode agent ua)
]

-- No line so far speaks to the crawler: nothing applies, and nothing is kept.
abbrev IsSilent : Parse → Type 0
IsSilent s = (s.applies ≡ false) × ((s.paths ≡ []) × ((s.ua_delay ≡ 0) × (s.wildcard_delay ≡ 0)))

directive-IsSilent :
    (r : Reader) (ua : Bytes) (s : Parse) (field value : Bytes)
    → (bytes_eq field (codes "user-agent")
        && (bytes_eq value (codes "*") || equal_fold r.unicode value ua))
      ≡ false
    → IsSilent s
    → IsSilent (directive r ua s field value)
unfolding directive
directive-IsSilent r ua s field value foreign h = ground arith

parse_line-IsSilent :
    (r : Reader) (ua : Bytes) (s : Parse) (raw : Bytes)
    → addresses r ua raw ≡ false
    → IsSilent s
    → IsSilent (parse_line r ua s raw)
unfolding parse_line addresses
parse_line-IsSilent r ua s raw foreign h =
    let line = trim_space r.unicode raw in
    elim (Bool-cases (has_prefix line (codes "#") || bytes_eq line [])) [
      | inl skip ↦ rw skip h
      | inr fine ↦ elim (Option-cases (split_colon line)) [
        | inl none_there ↦ rw (fine, none_there) h
        | inr (x, there) ↦
            rw (fine, there) (directive-IsSilent r ua s _ _ (rw (there, addresses) at foreign) h)
      ]
    ]

parse_lines-IsSilent :
    (r : Reader) (ua : Bytes) (s : Parse) (lines : List Bytes)
    → All (λ l. addresses r ua l ≡ false) lines
    → IsSilent s
    → IsSilent (parse_lines r ua s lines)
unfolding parse_lines
parse_lines-IsSilent r ua s [] foreign h = h
parse_lines-IsSilent r ua s (line ∷ lines) foreign h =
    parse_lines-IsSilent r ua (parse_line r ua s line) lines foreign.1
      (parse_line-IsSilent r ua s line foreign.0 h)

-- Where no line of the file names the crawler or every crawler, no rule of the file applies: every path is
-- allowed, and there is no delay.
pub foreign_rules_ignored :
    (r : Reader) (ua : Bytes) (lines : List Bytes) (path : Bytes)
    → All (λ l. addresses r ua l ≡ false) lines
    → (path_allowed (parse_robots r ua lines).0 path ≡ true) × ((parse_robots r ua lines).1 ≡ 0)
unfolding parse_robots path_allowed
foreign_rules_ignored r ua lines path foreign =
    let silent = parse_lines-IsSilent r ua start lines foreign (refl, (refl, (refl, refl))) in
    let none_kept = silent.1.0 in
    (rw (none_kept, path_allowed) refl, ground (arith, silent.1.1.0, silent.1.1.1))
