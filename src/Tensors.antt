-- ===== src/Tensors.antt =====
-- What the planning code reads of a tensor: its data type (infini_train/include/datatype.h), its
-- device (infini_train/include/device.h and infini_train/src/device.cc) and its number of elements.
use infini_train.Base.{ℕ, Bool, ◌&&◌, ◌==◌}

pub data DataType : Type 0 where
  bool uint8 int8 uint16 int16 uint32 int32 uint64 int64 : DataType
  bfloat16 float16 float32 float64 : DataType

-- The enumeration's values, by which two data types are compared.
abbrev pub dtype_value : DataType → ℕ
dtype_value bool = 0
dtype_value uint8 = 1
dtype_value int8 = 2
dtype_value uint16 = 3
dtype_value int16 = 4
dtype_value uint32 = 5
dtype_value int32 = 6
dtype_value uint64 = 7
dtype_value int64 = 8
dtype_value bfloat16 = 9
dtype_value float16 = 10
dtype_value float32 = 11
dtype_value float64 = 12

-- `kDataTypeToSize`
abbrev pub data_type_to_size : DataType → ℕ
data_type_to_size bool = 1
data_type_to_size uint8 = 1
data_type_to_size int8 = 1
data_type_to_size uint16 = 2
data_type_to_size int16 = 2
data_type_to_size uint32 = 4
data_type_to_size int32 = 4
data_type_to_size uint64 = 8
data_type_to_size int64 = 8
data_type_to_size bfloat16 = 2
data_type_to_size float16 = 2
data_type_to_size float32 = 4
data_type_to_size float64 = 8

pub data DeviceType : Type 0 where
  cpu cuda : DeviceType

abbrev pub device_type_value : DeviceType → ℕ
device_type_value cpu = 0
device_type_value cuda = 1

pub record Device : Type 0 where
  pub device_type : DeviceType
  pub index : ℕ

abbrev pub same_dtype : DataType → DataType → Bool
same_dtype a b = dtype_value a == dtype_value b

-- `operator==`
abbrev pub same_device : Device → Device → Bool
same_device a b =
    device_type_value a.device_type == device_type_value b.device_type && (a.index == b.index)

pub record Tensor : Type 0 where
  pub dtype : DataType
  pub device : Device
  pub num_elements : ℕ
  pub requires_grad : Bool
