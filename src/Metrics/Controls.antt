-- ===== src/Metrics/Controls.antt =====
-- The control of an option (lib/options.ts, and `renderOptionField` of pages/UploadPage.tsx).
use bit_bench.Prelude.{Option, none, some, List, [], Bool, true, false, not, Str, if◌then◌else◌}
use bit_bench.Options.{CompressorOption, OptionType, number, boolean, select}
use bit_bench.Results.{Ordered, le}
use bit_bench.Metrics.{Arithmetic}

-- What `renderOptionField` of pages/UploadPage.tsx shows for an option.
pub data Control (Num : Type 0) : Type 0 where
  switch : Control Num
  choice : List Str → Control Num
  slider input : Num → Num → Num → Control Num
  no_control : Control Num

module _ {Num : Type 0} ⦃o : Ordered Num⦄ (a : Arithmetic Num) where
  -- `opt.step ?? 1`
  unfoldable pub step_of : Option Num → Num
  step_of none = a.of_nat 1
  step_of (some step) = step

  unfoldable pub steps_between : Num → Num → Num → Num
  steps_between min max step = a.div (a.sub max min) step

  unfoldable pub bounded_steps : Option Num → Option Num → Num → Num
  unfolding steps_between
  bounded_steps none max step = a.of_nat 0
  bounded_steps (some min) none step = a.of_nat 0
  bounded_steps (some min) (some max) step = steps_between min max step

  unfoldable pub is_number : OptionType → Bool
  is_number number = true
  is_number boolean = false
  is_number select = false

  unfoldable pub steps_for_option : CompressorOption Num → Num
  unfolding step_of bounded_steps is_number
  steps_for_option opt =
      if not (is_number opt.type)
      then a.of_nat 0
      else bounded_steps opt.min opt.max (step_of opt.step)

  unfoldable pub should_use_slider : CompressorOption Num → Bool
  unfolding steps_for_option
  should_use_slider opt =
      if not (is_number opt.type) then false else le (steps_for_option opt) (a.of_nat 20)

  unfoldable pub number_control : Bool → Option Num → Option Num → Num → Control Num
  number_control is_slider none max step = no_control
  number_control is_slider (some min) none step = no_control
  number_control is_slider (some min) (some max) step =
      if is_slider then slider min max step else input min max step

  unfoldable pub control_of : OptionType → CompressorOption Num → Control Num
  unfolding should_use_slider number_control
  control_of boolean opt = switch
  control_of select opt = choice (elim opt.options [ none ↦ [] | some options ↦ options ])
  control_of number opt = number_control (should_use_slider opt) opt.min opt.max (step_of opt.step)
