-- ===== src/Cli/Cleanup/Steps.antt =====
-- Steps of src/cli/utils/cleanup.rs that succeed, ask nothing and forget nothing.
use analytics_hub.Prelude.{
  ◌≡◌, refl, ◌⊎◌, inl, inr, String, Bool, true, false, List, [], ◌∷◌, if◌then◌else◌, Outcome, ok,
  err, All,
}
use analytics_hub.Prelude.Effects.{Effect, pure, ◌>>=◌, ◌>>◌, for_each}
use analytics_hub.Cli.Cleanup.Cloud.{
  Action, delete_namespace, run_program, Outside, Log, act, delete_msk, run_output, destroy_aws,
  destroy_gcp, destroy_azure,
}
use analytics_hub.Cli.Cleanup.Consent.{is_question}

abbrev pub IsSilent : Log → Type 0
IsSilent log = All (λ a. is_question a ≡ false) log

abbrev pub Did : Action → Log → Type 0
Did a [] = ⊥
Did a (b ∷ log) = (b ≡ a) ⊎ Did a log

-- A step that succeeds, asks nothing and forgets nothing.
pub record Proceeds {A E : Type 0} (m : Effect Log E A) : Type 0 where
  pub answer : Log → A
  pub result : (log : Log) → (m log).0 ≡ ok (answer log)
  pub silent : (log : Log) → IsSilent log → IsSilent (m log).1
  pub kept : (log : Log) (a : Action) → Did a log → Did a (m log).1

module _ {E : Type 0} where
  pub pure-Proceeds : {A : Type 0} → (a : A) → Proceeds {E = E} (pure a)
  pure-Proceeds a = record {
    answer = λ log. a;
    result = λ log. refl;
    silent = λ log h. h;
    kept = λ log b h. h;
  }

  pub act-Proceeds : (a : Action) → is_question a ≡ false → Proceeds {E = E} (act a)
  unfolding act
  act-Proceeds a no_question = record {
    answer = λ log. tt;
    result = λ log. refl;
    silent = λ log h. (no_question, h);
    kept = λ log b h. inr h;
  }

  pub >>=-Proceeds :
      {A B : Type 0} (m : Effect Log E A) (f : A → Effect Log E B)
      → Proceeds m
      → ((a : A) → Proceeds (f a))
      → Proceeds (m >>= f)
  >>=-Proceeds m f p q = record {
    answer = λ log. (q (p.answer log)).answer (m log).1;
    result = λ log. rw (p.result log) ((q (p.answer log)).result (m log).1);
    silent = λ log h. rw (p.result log) ((q (p.answer log)).silent (m log).1 (p.silent log h));
    kept = λ log a h. rw (p.result log) ((q (p.answer log)).kept (m log).1 a (p.kept log a h));
  }

  pub if-Proceeds :
      {A : Type 0} (b : Bool) (m n : Effect Log E A)
      → Proceeds m
      → Proceeds n
      → Proceeds (if b then m else n)
  if-Proceeds true m n p q = p
  if-Proceeds false m n p q = q

  pub >>-Proceeds :
      {A B : Type 0} (m : Effect Log E A) (n : Effect Log E B)
      → Proceeds m
      → Proceeds n
      → Proceeds (m >> n)
  >>-Proceeds m n p q = >>=-Proceeds m (λ _. n) p (λ _. q)

  pub skipped-Proceeds : (m : Effect Log E (Unit {0})) → Proceeds (if false then m else pure tt)
  skipped-Proceeds m = pure-Proceeds tt

  pub ruleset silently = (act-Proceeds, pure-Proceeds, >>-Proceeds, if-Proceeds, skipped-Proceeds)

  -- A step that proceeds, with an action in the log after it.
  pub record Does {A : Type 0} (a : Action) (m : Effect Log E A) : Type 0 where
    pub proceeds : Proceeds m
    pub done : (log : Log) → Did a (m log).1

  pub act-Does : (a : Action) → is_question a ≡ false → Does a (act a)
  unfolding act
  act-Does a no_question = record { proceeds = act-Proceeds a no_question; done = λ log. inl refl }

  pub Does-before :
      {A B : Type 0} (a : Action) (m : Effect Log E A) (n : Effect Log E B)
      → Does a m
      → Proceeds n
      → Does a (m >> n)
  Does-before a m n d q = record {
    proceeds = >>-Proceeds m n d.proceeds q;
    done = λ log. rw (d.proceeds.result log) (q.kept (m log).1 a (d.done log));
  }

  pub Does-after :
      {A B : Type 0} (a : Action) (m : Effect Log E A) (n : Effect Log E B)
      → Proceeds m
      → Does a n
      → Does a (m >> n)
  Does-after a m n p d = record {
    proceeds = >>-Proceeds m n p d.proceeds;
    done = λ log. rw (p.result log) (d.done (m log).1);
  }

  pub record Returns {A : Type 0} (a : A) (m : Effect Log E A) : Type 0 where
    pub returns : (log : Log) → (m log).0 ≡ ok a

  pub pure-Returns : {A : Type 0} → (a : A) → Returns a (pure a)
  pure-Returns a = record { returns = λ log. refl }

  pub >>-Returns :
      {A B : Type 0} (b : B) (m : Effect Log E A) (n : Effect Log E B)
      → Proceeds m
      → Returns b n
      → Returns b (m >> n)
  >>-Returns b m n p r = record { returns = λ log. rw (p.result log) (r.returns (m log).1) }

  pub ruleset does = (Does-before, Does-after)

  pub deletes-Proceeds :
      (l : List String) → Proceeds {E = E} (for_each (λ ns. act (delete_namespace ns)) l)
  deletes-Proceeds [] = pure-Proceeds tt
  deletes-Proceeds (ns ∷ l) =
      >>-Proceeds (act (delete_namespace ns)) _ (act-Proceeds (delete_namespace ns) refl)
        (deletes-Proceeds l)

  pub gcp-Proceeds : (environment : String) → Proceeds {E = E} (destroy_gcp environment)
  unfolding destroy_gcp
  gcp-Proceeds environment = search silently

  pub azure-Proceeds : (environment : String) → Proceeds {E = E} (destroy_azure environment)
  unfolding destroy_azure
  azure-Proceeds environment = search silently

module _ (o : Outside) {E : Type 0} where
  pub msk-Proceeds : (r : Outcome String o.Error) → Proceeds {E = E} (delete_msk o r)
  unfolding delete_msk
  msk-Proceeds (ok stdout) = search silently
  msk-Proceeds (err e) = search silently

  pub run-Proceeds :
      (program : String) (l : List String) → Proceeds {E = E} (run_output o program l)
  unfolding run_output
  run-Proceeds program l = record {
    answer = λ log. o.output (run_program program l ∷ log);
    result = λ log. refl;
    silent = λ log h. (refl, h);
    kept = λ log a h. inr h;
  }

  pub aws-Proceeds : (environment : String) → Proceeds {E = E} (destroy_aws o environment)
  unfolding destroy_aws
  aws-Proceeds environment = search (silently, >>=-Proceeds, run-Proceeds, msk-Proceeds)
