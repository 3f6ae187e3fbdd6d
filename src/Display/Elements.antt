-- ===== src/Display/Elements.antt =====
-- display_elements.go and display.go: the elements of a display update and its request. A text is
-- the list of its bytes, an int an integer, a pointer to an int an optional one.
use busylib_go.Prelude.{Bool, false, List, [], ◌∷◌, Option, none}
use busylib_go.Prelude.Int.{ℤ, pos}
use busylib_go.Prelude.Bytes.{Bytes, bytes}

pub record BaseDisplayElement : Type 0 where
  pub id : Bytes
  pub timeout : Option ℤ
  pub display_until : Bytes
  pub x : Option ℤ
  pub y : Option ℤ
  pub z_index : Option ℤ
  pub display : Bytes
  pub align : Bytes

pub record TextElement : Type 0 where
  pub base : BaseDisplayElement
  pub text : Bytes
  pub font : Bytes
  pub color : Bytes
  pub width : ℤ
  pub scroll_rate : ℤ
  pub scroll_start_delay : ℤ
  pub scroll_repeat_delay : ℤ

pub record ImageElement : Type 0 where
  pub base : BaseDisplayElement
  pub path : Bytes
  pub stock_path : Bytes
  pub opacity : Option ℤ

pub record AnimationElement : Type 0 where
  pub base : BaseDisplayElement
  pub path : Bytes
  pub stock_path : Bytes
  pub loop : Bool
  pub await_previous_end : Bool
  pub section : Bytes
  pub opacity : Option ℤ

pub record XpmBitmapElement : Type 0 where
  pub base : BaseDisplayElement
  pub content : Bytes
  pub opacity : Option ℤ

pub record CountdownElement : Type 0 where
  pub base : BaseDisplayElement
  pub timestamp : Bytes
  pub color : Bytes
  pub direction : Bytes
  pub show_hours : Bytes

pub record RectangleElement : Type 0 where
  pub base : BaseDisplayElement
  pub width : ℤ
  pub height : ℤ
  pub radius : ℤ
  pub fill : Bytes
  pub fill_colors : List Bytes
  pub border_width : Option ℤ
  pub border_color : Bytes

-- An element or a pointer to one; the checks treat both alike, but for a pointer that is nil. A nil
-- interface is `nil_element`.
pub data DisplayElement : Type 0 where
  text_element : TextElement → DisplayElement
  image_element : ImageElement → DisplayElement
  animation_element : AnimationElement → DisplayElement
  xpm_bitmap_element : XpmBitmapElement → DisplayElement
  countdown_element : CountdownElement → DisplayElement
  rectangle_element : RectangleElement → DisplayElement
  nil_pointer nil_element : DisplayElement

abbrev pub display_front : Bytes
display_front = bytes "front"

abbrev pub display_back : Bytes
display_back = bytes "back"

abbrev pub display_aligns : List Bytes
display_aligns =
    bytes "top_left"
    ∷ bytes "top_mid"
    ∷ bytes "top_right"
    ∷ bytes "mid_left"
    ∷ bytes "center"
    ∷ bytes "mid_right"
    ∷ bytes "bottom_left"
    ∷ bytes "bottom_mid"
    ∷ bytes "bottom_right"
    ∷ []

abbrev pub fonts : List Bytes
fonts =
    bytes "tiny"
    ∷ bytes "small"
    ∷ bytes "normal"
    ∷ bytes "condensed"
    ∷ bytes "bold"
    ∷ bytes "large"
    ∷ bytes "extra_large"
    ∷ bytes "global"
    ∷ []

abbrev pub countdown_directions : List Bytes
countdown_directions = bytes "time_left" ∷ bytes "time_since" ∷ []

abbrev pub countdown_show_hours : List Bytes
countdown_show_hours = bytes "when_non_zero" ∷ bytes "always" ∷ []

abbrev pub rectangle_fills : List Bytes
rectangle_fills = bytes "none" ∷ bytes "solid" ∷ bytes "gradient_h" ∷ bytes "gradient_v" ∷ []

pub record DisplayElements : Type 0 where
  pub application_name : Bytes
  pub priority : ℤ
  pub led_notification_color : Bytes
  pub elements : List DisplayElement

-- The constructors.
unfoldable pub default_display_element : Bytes → BaseDisplayElement
default_display_element id = record {
  id = id;
  timeout = none;
  display_until = [];
  x = none;
  y = none;
  z_index = none;
  display = display_front;
  align = [];
}

unfoldable pub new_text_element : Bytes → Bytes → Bytes → TextElement
new_text_element id text font = record {
  base = default_display_element id;
  text = text;
  font = font;
  color = [];
  width = pos 0;
  scroll_rate = pos 0;
  scroll_start_delay = pos 0;
  scroll_repeat_delay = pos 0;
}

unfoldable pub new_asset_image_element : Bytes → Bytes → ImageElement
new_asset_image_element id path = record {
  base = default_display_element id;
  path = path;
  stock_path = [];
  opacity = none;
}

unfoldable pub new_stock_image_element : Bytes → Bytes → ImageElement
new_stock_image_element id stock_path = record {
  base = default_display_element id;
  path = [];
  stock_path = stock_path;
  opacity = none;
}

unfoldable pub new_asset_animation_element : Bytes → Bytes → AnimationElement
new_asset_animation_element id path = record {
  base = default_display_element id;
  path = path;
  stock_path = [];
  loop = false;
  await_previous_end = false;
  section = [];
  opacity = none;
}

unfoldable pub new_stock_animation_element : Bytes → Bytes → AnimationElement
new_stock_animation_element id stock_path = record {
  base = default_display_element id;
  path = [];
  stock_path = stock_path;
  loop = false;
  await_previous_end = false;
  section = [];
  opacity = none;
}

unfoldable pub new_xpm_bitmap_element : Bytes → Bytes → XpmBitmapElement
new_xpm_bitmap_element id content = record {
  base = default_display_element id;
  content = content;
  opacity = none;
}

unfoldable pub new_countdown_element : Bytes → Bytes → Bytes → Bytes → CountdownElement
new_countdown_element id timestamp direction show_hours = record {
  base = default_display_element id;
  timestamp = timestamp;
  color = [];
  direction = direction;
  show_hours = show_hours;
}

unfoldable pub new_rectangle_element : Bytes → ℤ → ℤ → RectangleElement
new_rectangle_element id width height = record {
  base = default_display_element id;
  width = width;
  height = height;
  radius = pos 0;
  fill = [];
  fill_colors = [];
  border_width = none;
  border_color = [];
}
