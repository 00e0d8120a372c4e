-- ===== src/Responses/Stream/Feed/Ends.antt =====
-- app/responses_compat.py: `feed`, `done` and `fail` keep to the protocol of Phase, and the last two end it.
use mathlib.Core.Path.{subst}
use zcode2api.Prelude.{
  ◌≡◌, refl, sym, ap, ◌∙◌, String, true, false, List, [], ◌∷◌, if◌then◌else◌, Bool-cases, ◌⊎◌, inl,
  inr,
}
use zcode2api.Prelude.Json
use zcode2api.Prelude.Json.{Json, Fields, get, get_in, array}
use zcode2api.Responses.Stream.{
  Converter, change, looking, ◌andthen◌, emit, ensure_started, close_active_block,
}
use zcode2api.Responses.Stream.Phase.{Phase, ended, idle, ends, Runs, stays, steps, Runs-append}
use zcode2api.Responses.Stream.Feed.{
  is_incomplete, done_type, final_response, failed_response, finish, done, fail,
}
use zcode2api.Responses.Stream.Feed.Simulates.{Live, unstarted, resting, holding, Rests}
use zcode2api.Responses.Stream.Feed.Openings.{closed-Rests}

-- The converter stands for the phase, also after the end of its stream.
abbrev pub Stands : Converter → Phase → Type 0
Stands c p = Live c p ⊎ ((c.finished ≡ true) × (p ≡ ended))

pub Live-unfinished : (c : Converter) (p : Phase) → Live c p → c.finished ≡ false
Live-unfinished c _ (unstarted fin st act it) = fin
Live-unfinished c _ (resting items fin st act it) = fin
Live-unfinished c _ (holding items b fin st act it at) = fin

abbrev LastType : String → Type 0
LastType t = (t ≡ "response.completed") ⊎ ((t ≡ "response.incomplete") ⊎ (t ≡ "response.failed"))

pub finish_open :
    (t : Converter → String) (r : Converter → Json) (c : Converter)
    → c.finished ≡ false
    → finish t r c
      ≡ ((ensure_started andthen close_active_block)
            andthen (change (λ d. record d { finished = true })
                andthen looking λ d. emit (t d) (("response", r d) ∷ [])))
          c
unfolding finish
finish_open t r c h = rw h

resting_items : (c : Converter) (items : List Json) → Live c (idle items) → c.output_items ≡ items
resting_items c _ (resting items fin st act it) = it

-- The event that ends a stream.
last_ends :
    (t : Converter → String) (r : Converter → Json) (c : Converter) (items : List Json)
    → ((d : Converter) → LastType (t d))
    → ((d : Converter) → get_in "output" (r d) ≡ array d.output_items)
    → Live c (idle items)
    → Runs
        (idle items)
        ((change (λ d. record d { finished = true })
            andthen looking λ d. emit (t d) (("response", r d) ∷ []))
          c).1
        ended
unfolding emit Json.get
last_ends t r c items ht hr h =
    steps
      (ends _ items (ht (record c { finished = true }))
        (hr (record c { finished = true }) ∙ ap array (resting_items c items h)))
      stays

finish_ends :
    (t : Converter → String) (r : Converter → Json) (c : Converter) (p : Phase)
    → ((d : Converter) → LastType (t d))
    → ((d : Converter) → get_in "output" (r d) ≡ array d.output_items)
    → Live c p
    → Runs p (finish t r c).1 ended
finish_ends t r c p ht hr h =
    let a : Rests p ((ensure_started andthen close_active_block) c) = closed-Rests c p h in
    let d : Converter = ((ensure_started andthen close_active_block) c).0 in
    subst (λ x. Runs p x.1 ended) (sym (finish_open t r c (Live-unfinished c p h)))
      (Runs-append ((ensure_started andthen close_active_block) c).1 _ a.1
        (last_ends t r d a.0 ht hr a.2))

pub finish_again :
    (t : Converter → String) (r : Converter → Json) (c : Converter)
    → c.finished ≡ true
    → finish t r c ≡ (c, [])
unfolding finish
finish_again t r c h = rw h

-- After the end the converter is finished, whatever it was.
pub finish_finished :
    (t : Converter → String) (r : Converter → Json) (c : Converter)
    → (finish t r c).0.finished ≡ true
unfolding emit
finish_finished t r c = elim (Bool-cases c.finished) [
  | inl e ↦ subst (λ x. x.0.finished ≡ true) (sym (finish_again t r c e)) e
  | inr e ↦ subst (λ x. x.0.finished ≡ true) (sym (finish_open t r c e)) refl
]

done_type-LastType : (c : Converter) → LastType (done_type c)
done_type-LastType c =
    elim (is_incomplete c)
      as (λ b. LastType (if b then "response.incomplete" else "response.completed")) [
        | true ↦ inr (inl refl)
        | false ↦ inl refl
      ]

final_response-output : (c : Converter) → get_in "output" (final_response c) ≡ array c.output_items
unfolding final_response Json.get
final_response-output c = refl

failed_response-output :
    (m k : String) (c : Converter) → get_in "output" (failed_response m k c) ≡ array c.output_items
unfolding failed_response Json.get
failed_response-output m k c = refl

-- What `done` and `fail` emit runs a stream to its end, and finishes the converter.
pub done-Runs : (c : Converter) (p : Phase) → Live c p → Runs p (done c).1 ended
unfolding done
done-Runs c p h =
    finish_ends done_type final_response c p done_type-LastType final_response-output h

pub fail-Runs : (m k : String) (c : Converter) (p : Phase) → Live c p → Runs p (fail m k c).1 ended
unfolding fail
fail-Runs m k c p h =
    finish_ends (λ d. "response.failed") (failed_response m k) c p (λ d. inr (inr refl))
      (failed_response-output m k) h

pub done_finished : (c : Converter) → (done c).0.finished ≡ true
unfolding done
done_finished c = finish_finished done_type final_response c

pub fail_finished : (m k : String) (c : Converter) → (fail m k c).0.finished ≡ true
unfolding fail
fail_finished m k c = finish_finished (λ d. "response.failed") (failed_response m k) c

pub done_again : (c : Converter) → c.finished ≡ true → done c ≡ (c, [])
unfolding done
done_again c h = finish_again done_type final_response c h
