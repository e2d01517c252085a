-- ===== src/Cli/Replay.antt =====
-- adpulse/cli.py: the command `replay`, in the order of its steps.
use ad_pulse.Prelude.{String, List, string_eq, nat_eq, Result, ok, raise, ◌>>=◌}
use ad_pulse.Json.{Value}
use ad_pulse.Archive.Objects.{Objects}
use ad_pulse.Oracle.Event.{Rules}
use ad_pulse.Oracle.Calculate.{Output, calculate}
use ad_pulse.Reconciliation.Run.{dimensions_of}
use ad_pulse.Releases.{Db}
use ad_pulse.Cli.State.{Arguments, Services, World, Source, check_arguments}
use ad_pulse.Cli.Read.{read_source}
use ad_pulse.Cli.Release.{Report, release_output}

module _ (sha256 : String → String) (loads : String → Result Value) (prefix : String)
    (errors : Value → List String) where
  unfoldable pub calculate_source : Arguments → Rules → Source → Result Output
  unfolding dimensions_of calculate
  calculate_source args rules source = do
    dimensions ← dimensions_of source.dimensions
    calculate rules args.release dimensions sha256 errors source.packets

  unfoldable pub with_output :
      Arguments → Rules → Services → Source → Result Output → Db → Result Report × Db
  unfolding release_output
  with_output args rules services source (raise e) db = (raise e, db)
  with_output args rules services source (ok output) db =
      release_output sha256 prefix args rules services source output db

  unfoldable pub with_source :
      Arguments → Rules → Services → Result (Source × Objects) → World → Result Report × World
  unfolding calculate_source with_output
  with_source args rules services (raise e) w = (raise e, w)
  with_source args rules services (ok (source, objects)) w =
      let done = with_output args rules services source (calculate_source args rules source) w.db in
      (done.0, record { objects = objects; db = done.1 })

  unfoldable pub with_rules : Arguments → Services → Result Rules → World → Result Report × World
  unfolding read_source with_source
  with_rules args services (raise e) w = (raise e, w)
  with_rules args services (ok rules) w =
      with_source args rules services (read_source sha256 loads args rules services w.objects) w

  unfoldable pub when_checked :
      Arguments → Services → Result (Unit {0}) → World → Result Report × World
  unfolding with_rules
  when_checked args services (raise e) w = (raise e, w)
  when_checked args services (ok _) w = with_rules args services services.rules w

  -- `replay`
  unfoldable pub replay : Arguments → Services → World → Result Report × World
  unfolding check_arguments when_checked
  replay args services w = when_checked args services (check_arguments args) w
