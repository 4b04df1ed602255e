-- ===== src/Config/Valid/Blocks.antt =====
-- The loop over directives ends, and what a block is read as is valid.
use geata.Common.{
  take, drop, ℕ, zero, suc, ◌≤◌, ◌≡◌, refl, subst, Bool, Option, none, some, List, [], ◌∷◌, arith,
  length, unwrap_or,
}
use geata.Common.Map.{Map, get}
use geata.Common.Post.{ok-Post, bind-Post}
use geata.Common.Text.{Text, text_Key}
use geata.Config.Token.{Token}
use geata.Config.Handler.{Handler}
use geata.Config.Name.{directive_of, argument_count}
use geata.Config.Directives.{LightningPay, Directives, no_directives}
use geata.Config.Block.{
  directives_from, site_origin, policy_of, lightning_policy, finish, parse_directives,
}
use geata.Config.Outcome.{Holds, or_fail-Holds, at_line-Holds}
use geata.Config.Valid.{IsOptional, IsHandler, IsProtocols, IsDirectives}
use geata.Config.Valid.Turns.{directive-IsDirectives}
use geata.Lightning.Policies.{ReceiverConfig, Protocols, default_protocols, Policy}
use geata.Lightning.Policies.Valid.{IsPolicy, new-IsPolicy}
use geata.Url.{Parsers}

length-drop : {A : Type 0} (n : ℕ) (xs : List A) → length (drop n xs) ≤ length xs
length-drop zero xs = omega arith
length-drop (suc n) [] = omega arith
length-drop (suc n) (x ∷ xs) = omega (arith, length-drop n xs)

no_directives-IsDirectives : IsDirectives no_directives
no_directives-IsDirectives = ground arith

-- What `parse_directives` answers.
abbrev pub IsBlock : Handler × (Option Policy × Directives) → Type 0
IsBlock (handler, (lightning, s)) =
    IsHandler handler × (IsOptional IsPolicy lightning × IsDirectives s)

module _ (parsers : Parsers) where
  directives_from-IsDirectives :
      (fuel : ℕ) (ts : List Token) (s : Directives)
      → length ts ≤ fuel
      → IsDirectives s
      → Holds IsDirectives (directives_from parsers fuel ts s)
  unfolding directives_from
  directives_from-IsDirectives fuel [] s le h = ok-Post h
  directives_from-IsDirectives zero (t ∷ ts) s le h = absurd (omega arith)
  directives_from-IsDirectives (suc fuel) (t ∷ ts) s le h =
      let count = argument_count (directive_of t) ts in
      bind-Post _ (directives_from parsers fuel (drop count ts))
        (directive-IsDirectives parsers (directive_of t) t.line (take count ts) s h)
        λ s' h'.
          directives_from-IsDirectives fuel (drop count ts) s' (omega (arith, length-drop count ts))
            h'

  protocols_or :
      (o : Option Protocols)
      → IsOptional IsProtocols o
      → IsProtocols (unwrap_or o default_protocols)
  protocols_or none h = refl
  protocols_or (some p) h = h

  policy_of-IsPolicy :
      (line : ℕ) (receivers : Map Text ReceiverConfig) (domain : Text) (https : Bool)
      (wanted : LightningPay) (s : Directives)
      → IsDirectives s
      → Holds IsPolicy (policy_of parsers line receivers domain https wanted s)
  policy_of-IsPolicy line receivers domain https wanted s h =
      bind-Post _ _
        (or_fail-Holds (get wanted.receiver receivers) wanted.line "unknown Lightning receiver")
        λ receiver _.
          bind-Post _ _
            (or_fail-Holds s.lightning_headers wanted.line
              "lightning_pay requires lightning_headers; use none only when no headers affect the request")
            λ headers _. at_line-Holds wanted.line _ (
              new-IsPolicy parsers wanted.price wanted.unit receiver
                (unwrap_or s.lightning_origin (site_origin parsers domain https)) headers
                (unwrap_or s.lightning_protocols default_protocols)
                (protocols_or s.lightning_protocols h.1.1.1.0))

  lightning_policy-IsPolicy :
      (line : ℕ) (receivers : Map Text ReceiverConfig) (domain : Text) (https : Bool)
      (o : Option LightningPay) (s : Directives)
      → IsDirectives s
      → Holds (IsOptional IsPolicy) (lightning_policy parsers line receivers domain https o s)
  unfolding lightning_policy
  lightning_policy-IsPolicy line receivers domain https none s h = record { holds = ground arith }
  lightning_policy-IsPolicy line receivers domain https (some wanted) s h =
      bind-Post (policy_of parsers line receivers domain https wanted s) _
        (policy_of-IsPolicy line receivers domain https wanted s h) λ policy p. ok-Post p

  handler_of :
      (handler : Handler) (o : Option Handler)
      → IsOptional IsHandler o
      → o ≡ some handler
      → IsHandler handler
  handler_of handler none h e = absurd (ground arith)
  handler_of handler (some a) h e = subst IsHandler (ground arith) h

  finish-IsBlock :
      (line : ℕ) (receivers : Map Text ReceiverConfig) (domain : Text) (https : Bool)
      (s : Directives)
      → IsDirectives s
      → Holds IsBlock (finish parsers line receivers domain https s)
  finish-IsBlock line receivers domain https s h =
      bind-Post _ _
        (or_fail-Holds s.handler line
          "expected exactly one reverse_proxy or respond directive per site")
        λ handler e.
          bind-Post _ _ (lightning_policy-IsPolicy line receivers domain https s.lightning s h)
            λ lightning p. ok-Post (handler_of handler s.handler h.0 e, (p, h))

  pub parse_directives-IsBlock :
      (tokens : List Token) (line : ℕ) (receivers : Map Text ReceiverConfig) (domain : Text)
      (https : Bool)
      → Holds IsBlock (parse_directives parsers tokens line receivers domain https)
  unfolding parse_directives
  parse_directives-IsBlock tokens line receivers domain https =
      bind-Post (directives_from parsers (length tokens) tokens no_directives) _
        (directives_from-IsDirectives (length tokens) tokens no_directives (omega arith)
          no_directives-IsDirectives)
        (finish-IsBlock line receivers domain https)
