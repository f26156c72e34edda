-- ===== src/Tests/Instances.antt =====
-- An instance manager that keeps instances in a list, and a row of a configuration.
use ts_queue.Base.{has}
use ts_queue.Errors.{thrown, Result, ok, err}
use ts_queue.Manager.{InstanceManager, ConnectionConfig}
use ts_queue.Manager.Bound.{IsLawful, resolved, answer}
use ts_queue.Prelude.{
  String, not, List, [], ◌∷◌, Option, none, some, is_some, ◌≡◌, refl, arith, keep, map, same,
  if◌then◌else◌,
}
use ts_queue.Prelude.Maps.{lookup, insert, lookup-insert}

module _ {C : Type 0} where
  abbrev settle : Option C → Result C → List (String × C) → String → List (String × C) × Result C
  settle (some c) r i n = (i, ok c)
  settle none (ok c) i n = (insert n c i, ok c)
  settle none (err e) i n = (i, err e)

  abbrev pub listed : InstanceManager (List (String × C)) C
  listed = record {
    instance_of = λ i n. lookup n i;
    instance_async = λ f i n. settle (lookup n i) (f n) i n;
    forget_instance = λ i n. keep (λ e. not (same e.0 n)) i;
    get_resolved_instances = λ i. map (λ e. e.0) i;
    purge = λ i. [];
    unconfigured = λ n. thrown n;
  }

  settle-resolved :
      (o : Option C) (r : Result C) (i : List (String × C)) (n m : String)
      → lookup n i ≡ o
      → (lookup m (settle o r i n).0 ≡ (if same n m then resolved o r else lookup m i))
        × ((settle o r i n).1 ≡ answer o r)
  settle-resolved (some c) r i n m e = (ground (arith, e), refl)
  settle-resolved none (ok c) i n m e = (lookup-insert n m c i, refl)
  settle-resolved none (err x) i n m e = (ground (arith, e), refl)

  listed_forgotten :
      (i : List (String × C)) (n m : String)
      → lookup m (keep (λ e. not (same e.0 n)) i) ≡ (if same n m then none else lookup m i)
  unfolding lookup
  listed_forgotten [] n m = ground arith
  listed_forgotten ((k, v) ∷ i) n m = ground (arith, listed_forgotten i n m)

  listed_names :
      (i : List (String × C)) (n : String) → has n (map (λ e. e.0) i) ≡ is_some (lookup n i)
  unfolding lookup has
  listed_names [] n = refl
  listed_names ((k, v) ∷ i) n = ground (arith, listed_names i n)

  pub nothing_listed : (n : String) → lookup {V = C} n [] ≡ none
  unfolding lookup
  nothing_listed n = refl

  pub listed-IsLawful : IsLawful listed
  listed-IsLawful = record {
    async_instance = λ f i n m. (settle-resolved (lookup n i) (f n) i n m refl).0;
    async_answer = λ f i n. (settle-resolved (lookup n i) (f n) i n n refl).1;
    forgotten = listed_forgotten;
    all_resolved = listed_names;
    purged = λ i n. nothing_listed n;
  }

abbrev pub memory_row : ConnectionConfig
memory_row = record {
  driver = "memory";
  name = none;
  prefix = none;
  db_name = none;
  db_version = none;
  mode = none;
  token = none;
  proxy_url = none;
  default_destination = none;
  base_url = none;
}
