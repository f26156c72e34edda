-- ===== src/Module/Exported.antt =====
-- The tokens that the root module provides and those that it exports.
use mathlib.Core.List.{Perm, map-append, map-map, append_assoc, perm_append_singleton}
use mathlib.Core.List.Perm
use ts_queue.Manager.{ConnectionConfig, ModuleOptions}
use ts_queue.Module.{Factory, queues, for_root, for_root_exports}
use ts_queue.Prelude.{String, List, [], ◌∷◌, ◌++◌, map, none, some, ◌≡◌, ◌∙◌, sym, subst, ap}
use ts_queue.Tokens.{get_queue_token, get_queue_connection_token}

abbrev Entry : Type 0
Entry = String × ConnectionConfig

provided_tokens :
    (f : Entry → String × Factory) (g : Entry → String × Factory) (p : String × Factory)
    (es : List Entry)
    → map (λ x. x.0) (map f es ++ (p ∷ map g es))
      ≡ map (λ e. (f e).0) es ++ (p.0 ∷ map (λ e. (g e).0) es)
provided_tokens f g p es =
    map-append (λ (x : String × Factory). x.0) (map f es) (p ∷ map g es)
    ∙ ap (λ l. l ++ (p.0 ∷ map (λ x. x.0) (map g es)))
        (map-map (λ (x : String × Factory). x.0) f es)
    ∙ ap (λ l. map (λ e. (f e).0) es ++ (p.0 ∷ l)) (map-map (λ (x : String × Factory). x.0) g es)

-- The tokens of the providers are the exported ones.
pub for_root-exports :
    (default_token : String) (config : ModuleOptions)
    → Perm (map (λ p. p.0) (for_root default_token config)) (for_root_exports default_token config)
unfolding for_root for_root_exports
for_root-exports default_token config =
    let es = config.connections in
    let named = map (λ e. get_queue_connection_token (some e.0)) es in
    let handles = map (λ e. get_queue_token (some "default") (some e.0)) es in
    let own = get_queue_token none none in
    let reordered : Perm (named ++ (own ∷ handles)) (named ++ (handles ++ (own ∷ []))) =
      Perm.append_left named (Perm.symm (perm_append_singleton own handles)) in
    Perm.cons default_token (
      subst (λ l. Perm l (named ++ handles ++ (own ∷ [])))
        (sym (provided_tokens _ _ (own, queues none none) es))
        (subst (λ l. Perm (named ++ (own ∷ handles)) l)
          (sym (append_assoc named handles (own ∷ []))) reordered))
