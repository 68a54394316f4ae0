-- ===== src/Ui/Layout.antt =====
-- The widgets of the main screen of host/ui.py: the calls of the constructors of urwid, as a tree. The paddings and
-- alignments, which are the same for all panels, are left out.
use cwdbg.Base.{ℕ, ◌+◌, List, [], ◌∷◌, ◌++◌, Option, none, some, Bytes, text}
use cwdbg.Ui.{input_widget_height}
use cwdbg.Ui.Log.{max_num_of_log_messages}

-- The widgets whose text changes.
pub data View : Type 0 where
  source_view disasm_view register_view variable_view stack_view call_stack_view : View
  input_view log_view status_line : View

mutual
  pub data Widget : Type 0 where
    view : View → Widget
    banner : Bytes → Widget
    line_box : Widget → Widget
    pile columns : Widgets → Widget

  -- With the number of lines that a widget takes, if it is fixed.
  pub data Widgets : Type 0 where
    nil : Widgets
    cons : Option ℕ → Widget → Widgets → Widgets

-- `LineBox(Padding(Filler(Pile([Text(('banner', …)), …]))))`
unfoldable pub panel : Bytes → View → Widget
panel title shown = line_box (pile (cons none (banner title) (cons none (view shown) nil)))

unfoldable pub source_widget : Widget
unfolding panel
source_widget = panel (text "Source code") source_view

unfoldable pub disasm_widget : Widget
unfolding panel
disasm_widget = panel (text "Disassembled code") disasm_view

unfoldable pub register_widget : Widget
unfolding panel
register_widget = panel (text "Registers") register_view

unfoldable pub variable_widget : Widget
unfolding panel
variable_widget = panel (text "Variables") variable_view

unfoldable pub stack_widget : Widget
unfolding panel
stack_widget = panel (text "Stack") stack_view

unfoldable pub call_stack_widget : Widget
unfolding panel
call_stack_widget = panel (text "Call Stack") call_stack_view

unfoldable pub input_widget : Widget
input_widget = line_box (view input_view)

unfoldable pub log_widget : Widget
log_widget = line_box (view log_view)

pub record Frame : Type 0 where
  pub header : Widget
  pub body : Widget
  pub footer : Widget

abbrev beside : Widget → Widget → Widget
beside a b = columns (cons none a (cons none b nil))

abbrev above : Widget → Widget → Widget
above a b = pile (cons none a (cons none b nil))

unfoldable pub main_widget : Frame
unfolding source_widget disasm_widget register_widget variable_widget stack_widget call_stack_widget
    input_widget log_widget
main_widget = record {
  header = banner (text "cwdbg - a debugger for the AmigaOS");
  body = pile (
      cons none
        (beside (above source_widget disasm_widget)
          (beside (above register_widget stack_widget) (above variable_widget call_stack_widget)))
        (cons (some (input_widget_height + 2)) input_widget
          (cons (some (max_num_of_log_messages + 2)) log_widget nil)));
  footer = view status_line;
}

-- The views of a widget, from left to right and from top to bottom.
unfoldable mutual
  pub views : Widget → List View
  views (view shown) = shown ∷ []
  views (banner title) = []
  views (line_box widget) = views widget
  views (pile widgets) = views_of widgets
  views (columns widgets) = views_of widgets

  pub views_of : Widgets → List View
  views_of nil = []
  views_of (cons height widget widgets) = views widget ++ views_of widgets
