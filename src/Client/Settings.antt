-- ===== src/Client/Settings.antt =====
-- What NewClient of pkg/client/client.gen.go leaves in a client.
use Prim.Native.String as String
use Prim.Native.String.append as Append
use dcm_policy_manager.Prelude.{
  String, Bool, true, false, ◌||◌, Option, none, some, List, [], ◌∷◌, ◌≡◌, ◌≢◌, refl, ok, concat,
  bind-ok, ok-injective, arith, subst, ◌==◌,
}
use dcm_policy_manager.Text.{has_suffix}
use dcm_policy_manager.Client.{
  Client, Doer, ClientOption, apply_options, new_client, with_slash, or_default,
}

or_true : (a b : Bool) → b ≡ true → (a || b) ≡ true
or_true true b h = refl
or_true false b h = h

has_suffix-append : (s : String) → has_suffix (String.◌++◌ s "/") "/" ≡ true
unfolding has_suffix
has_suffix-append String.[] = refl
has_suffix-append (String.◌∷◌ c s) = rw (Append.cons c s "/") (
    or_true (String.◌∷◌ c (String.◌++◌ s "/") == "/") (has_suffix (String.◌++◌ s "/") "/")
      (has_suffix-append s))

has_suffix-concat : (s : String) → has_suffix (concat (s ∷ "/" ∷ [])) "/" ≡ true
unfolding concat
has_suffix-concat s = has_suffix-append s

module _ {U S : Type 0} where
  with_slash-has_suffix : (c : Client U S) → has_suffix (with_slash c).server "/" ≡ true
  with_slash-has_suffix c = ground (arith, has_suffix-concat c.server)

  or_default-ne : (default : Doer U S) (doer : Option (Doer U S)) → or_default default doer ≢ none
  or_default-ne default none = cc
  or_default-ne default (some doer) = cc

  -- Whatever its options do, a client that NewClient returns has a server whose text ends in a
  -- slash, and has something that sends its requests.
  pub new_client-IsReady :
      (default : Doer U S) (server : String) (options : List (ClientOption U S)) {c : Client U S}
      → new_client default server options ≡ ok c
      → (has_suffix c.server "/" ≡ true) × (c.client ≢ none)
  unfolding new_client
  new_client-IsReady default server options h =
      let (chosen, applied, made) = bind-ok (apply_options options _) _ h in
      let e = ok-injective made in
      (
        subst (λ c. has_suffix c.server "/" ≡ true) e (with_slash-has_suffix chosen),
        subst (λ c. c.client ≢ none) e (or_default-ne default (with_slash chosen).client),
      )
